-- ===== src/Schedule/Summary.antt =====
-- `SummaryPanel` of frontend/src/components/schedule/summary-panel.tsx: the nodes it lists, and the body of
-- the command that it shows.
pub mod View
use scrapydweb.Base.{
  ℕ, ◌≡◌, refl, ◌∙◌, true, Option, none, some, List, [], ◌∷◌, Text, text, truthy, or_text, same,
  get, includes, filter, if◌then◌else◌, All, all, &&-true, assigned, first_some, zero, suc,
}
use scrapydweb.Js.Json.{Json, Items, Fields, stringify}
use scrapydweb.Js.Json
use scrapydweb.Api.Types.{NodeInfo}
use scrapydweb.Payload.{ScheduleForm, Mode, now, cron, latest, action_text}
use scrapydweb.Payload.Form.{
  is_filled, args_object, rows_json, object_json, build_schedule_form, base_fields, mode_fields,
  cron_fields, task_fields,
}
use scrapydweb.Payload.Form.Reads.{is_word, get-word}
use scrapydweb.Payload.Sanitize.{sanitize_jobid}
use scrapydweb.Js.Decimal.{is_digit}

-- `allNodes.filter(…)`
unfoldable pub listed_nodes : List NodeInfo → ScheduleForm → List NodeInfo
unfolding filter includes
listed_nodes nodes v = filter (λ (n : NodeInfo). includes v.nodes n.node) nodes

-- the cells of the summary
unfoldable pub version_cell : Text → Text
unfolding same latest
version_cell v = if truthy v then (if same v latest then text "latest" else v) else text "latest"

unfoldable pub jobid_cell : Text → Text
unfolding sanitize_jobid
jobid_cell s = if truthy s then sanitize_jobid s else text "auto"

abbrev numbers : List ℕ → Items
numbers [] = Json.nil
numbers (n ∷ ns) = Json.cons (Json.num n) (numbers ns)

abbrev spiders : Text → Items
spiders [] = Json.nil
spiders (c ∷ s) = Json.cons (Json.str (c ∷ s)) Json.nil

-- `Object.assign(curlBody, {…})` in cron mode
unfoldable pub cron_body : Mode → ScheduleForm → Fields
cron_body now v = Json.end
cron_body cron v = Json.field (text "trigger") (Json.str (text "cron")) (
    Json.field (text "action") (Json.str (action_text v.action)) (
      Json.field (text "name") (Json.str v.name) (
        Json.field (text "year") (Json.str v.year) (
          Json.field (text "month") (Json.str v.month) (
            Json.field (text "day") (Json.str v.day) (
              Json.field (text "week") (Json.str v.week) (
                Json.field (text "day_of_week") (Json.str v.day_of_week) (
                  Json.field (text "hour") (Json.str v.hour) (
                    Json.field (text "minute") (Json.str v.minute)
                      (Json.field (text "second") (Json.str v.second) Json.end))))))))))

unfoldable pub body_in : Mode → ScheduleForm → Fields
unfolding cron_body
body_in m v = Json.field (text "project") (Json.str v.project) (
    Json.field (text "_version") (Json.str (or_text v.version latest)) (
      Json.field (text "spiders") (Json.arr (spiders v.spider)) (
        Json.field (text "nodes") (Json.arr (numbers v.nodes)) (
          Json.field (text "jobid") (Json.str v.jobid) (
            Json.field (text "settings") (Json.arr (rows_json (filter is_filled v.settings))) (
              Json.field (text "args") (Json.obj (object_json (args_object v.args)))
                (cron_body m v)))))))

-- `curlBody`
unfoldable pub curl_body : ScheduleForm → Fields
unfolding body_in
curl_body v = body_in v.mode v

-- the node that the command is sent to
abbrev pub curl_node : List ℕ → ℕ
curl_node [] = 1
curl_node (n ∷ ns) = n

-- the value of a key of an object
unfoldable pub value_at : Text → Fields → Option Json
unfolding same
value_at k Json.end = none
value_at k (Json.field j v fs) = let rest = value_at k fs in if same j k then some v else rest

-- The text that the endpoint of the form reads for a value: a text is itself, and the rest is JSON.
abbrev posted : Json → Text
posted (Json.str s) = s
posted (Json.null) = stringify Json.null
posted (Json.bool b) = stringify (Json.bool b)
posted (Json.num n) = stringify (Json.num n)
posted (Json.arr vs) = stringify (Json.arr vs)
posted (Json.obj fs) = stringify (Json.obj fs)

abbrev pub posted_at : Option Json → Option Text
posted_at none = none
posted_at (some j) = some (posted j)

-- The fields of the form and the keys of the body that go together.
abbrev pub shared_keys : List (Text × Text)
shared_keys =
    (text "project", text "project")
    ∷ (text "_version", text "_version")
    ∷ (text "jobid", text "jobid")
    ∷ (text "settings_json", text "settings")
    ∷ (text "args_json", text "args")
    ∷ (text "trigger", text "trigger")
    ∷ (text "action", text "action")
    ∷ (text "name", text "name")
    ∷ (text "year", text "year")
    ∷ (text "month", text "month")
    ∷ (text "day", text "day")
    ∷ (text "week", text "week")
    ∷ (text "day_of_week", text "day_of_week")
    ∷ (text "hour", text "hour")
    ∷ (text "minute", text "minute")
    ∷ (text "second", text "second")
    ∷ []

-- the form's fields past those of the nodes
past_nodes : Mode → ScheduleForm → Text → Option Text
past_nodes m v k = first_some (assigned (mode_fields m v) k) (get k (base_fields v))

abbrev Agree : (Text → Option Text) → Fields → List (Text × Text) → Type 0
Agree read body ps = All (λ p. read p.0 ≡ posted_at (value_at p.1 body)) ps

cron-Agree :
    (t : Option ℕ) (v : ScheduleForm)
    → Agree (past_nodes cron (record v { task_id = t })) (body_in cron v) shared_keys
unfolding past_nodes mode_fields cron_fields task_fields assigned get base_fields body_in value_at
cron-Agree none v = (
  refl,
  (
    refl,
    (
      refl,
      (
        refl,
        (
          refl,
          (
            refl,
            (refl, (refl, (refl, (refl, (refl, (refl, (refl, (refl, (refl, (refl, tt)))))))))),
          ),
        ),
      ),
    ),
  ),
)
cron-Agree (some zero) v = (
  refl,
  (
    refl,
    (
      refl,
      (
        refl,
        (
          refl,
          (
            refl,
            (refl, (refl, (refl, (refl, (refl, (refl, (refl, (refl, (refl, (refl, tt)))))))))),
          ),
        ),
      ),
    ),
  ),
)
cron-Agree (some (suc n)) v = (
  refl,
  (
    refl,
    (
      refl,
      (
        refl,
        (
          refl,
          (
            refl,
            (refl, (refl, (refl, (refl, (refl, (refl, (refl, (refl, (refl, (refl, tt)))))))))),
          ),
        ),
      ),
    ),
  ),
)

now-Agree : (v : ScheduleForm) → Agree (past_nodes now v) (body_in now v) shared_keys
unfolding past_nodes mode_fields assigned get base_fields body_in value_at
now-Agree v = (
  refl,
  (
    refl,
    (
      refl,
      (
        refl,
        (
          refl,
          (
            refl,
            (refl, (refl, (refl, (refl, (refl, (refl, (refl, (refl, (refl, (refl, tt)))))))))),
          ),
        ),
      ),
    ),
  ),
)

mode-Agree : (m : Mode) (v : ScheduleForm) → Agree (past_nodes m v) (body_in m v) shared_keys
mode-Agree now v = now-Agree v
mode-Agree cron v = cron-Agree v.task_id v

-- What the form posts in a field is what the shown command has at the key, in either mode: the project,
-- the version, the job id, the settings and arguments as JSON, and each field of a timer task but its id.
pub curl_body-posted :
    (v : ScheduleForm)
    → All
        (λ p. get p.0 (build_schedule_form v) ≡ posted_at (value_at p.1 (curl_body v)))
        shared_keys
unfolding curl_body
curl_body-posted v = go shared_keys (unfold is_digit all in refl) (mode-Agree v.mode v)
  where
    go :
        (ps : List (Text × Text))
        → all (λ p. is_word p.0) ps ≡ true
        → Agree (past_nodes v.mode v) (body_in v.mode v) ps
        → Agree (λ k. get k (build_schedule_form v)) (body_in v.mode v) ps
    go [] w r = tt
    go ((k, j) ∷ ps) w r =
        let (w', ws) = &&-true (is_word k) (all (λ p. is_word p.0) ps) (unfold all in w) in
        (get-word k v w' ∙ unfold past_nodes in r.0, go ps ws r.1)

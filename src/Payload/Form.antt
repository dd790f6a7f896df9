-- ===== src/Payload/Form.antt =====
-- `buildScheduleForm`: the fields that the Run Spider page posts to the check endpoint.
pub mod Reads
use scrapydweb.Base.{
  ℕ, zero, suc, ◌≡◌, refl, Bool, true, false, not, ◌&&◌, List, [], ◌∷◌, ◌++◌, map, Option, none,
  some, Text, text, truthy, or_text, Obj, get, put, put_all, filter, includes, All, length, arith,
  same, if◌then◌else◌, ◌==◌,
}
use scrapydweb.Js.Decimal.{show}
use scrapydweb.Js.Json
use scrapydweb.Js.Json.{Json, Items, Fields, stringify}
use scrapydweb.Payload.{Row, Mode, now, cron, Action, ScheduleForm, latest, action_text}

-- `s.key && s.value`
unfoldable pub is_filled : Row → Bool
is_filled r = truthy r.key && truthy r.value

abbrev pub pair : Row → Text × Text
pair r = (r.key, r.value)

-- `Object.fromEntries(rows.filter(…).map(…))`
unfoldable pub args_object : List Row → Obj Text
args_object rows = put_all (map pair (filter is_filled rows)) []

unfoldable pub rows_json : List Row → Items
rows_json [] = Json.nil
rows_json (r ∷ rs) =
    Json.cons
      (Json.obj (
        Json.field (text "key") (Json.str r.key)
          (Json.field (text "value") (Json.str r.value) Json.end)))
      (rows_json rs)

unfoldable pub object_json : Obj Text → Fields
object_json [] = Json.end
object_json ((k, v) ∷ o) = Json.field k (Json.str v) (object_json o)

unfoldable pub base_fields : ScheduleForm → Obj Text
base_fields v =
    (text "project", v.project)
    ∷ (text "_version", or_text v.version latest)
    ∷ (text "spider", v.spider)
    ∷ (text "jobid", v.jobid)
    ∷ (text "settings_json", stringify (Json.arr (rows_json (filter is_filled v.settings))))
    ∷ (text "args_json", stringify (Json.obj (object_json (args_object v.args))))
    ∷ (text "checked_amount", show (length v.nodes))
    ∷ []

unfoldable pub node_fields : List ℕ → List (Text × Text)
node_fields ns = map (λ n. (show n, text "on")) ns

unfoldable pub task_fields : Option ℕ → List (Text × Text)
task_fields none = []
task_fields (some zero) = []
task_fields (some (suc n)) =
    (text "task_id", show (suc n)) ∷ (text "replace_existing", text "True") ∷ []

unfoldable pub cron_fields : ScheduleForm → List (Text × Text)
cron_fields v =
    (text "trigger", text "cron")
    ∷ (text "action", action_text v.action)
    ∷ (text "name", v.name)
    ∷ (task_fields v.task_id
        ++ ((text "year", v.year)
            ∷ (text "month", v.month)
            ∷ (text "day", v.day)
            ∷ (text "week", v.week)
            ∷ (text "day_of_week", v.day_of_week)
            ∷ (text "hour", v.hour)
            ∷ (text "minute", v.minute)
            ∷ (text "second", v.second)
            ∷ []))

unfoldable pub mode_fields : Mode → ScheduleForm → List (Text × Text)
mode_fields now v = []
mode_fields cron v = cron_fields v

-- Each field is an assignment to `out`, in the order of the source.
unfoldable pub build_schedule_form : ScheduleForm → Obj Text
build_schedule_form v =
    put_all (mode_fields v.mode v) (put_all (node_fields v.nodes) (base_fields v))

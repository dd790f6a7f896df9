-- ===== src/Schedule/Run.antt =====
-- The page's submission: check, run, and the fan-out of an immediate run to the other nodes.
pub mod Reach
use scrapydweb.Base.{
  ℕ, ◌≡◌, Bool, true, false, not, ◌&&◌, List, [], ◌∷◌, ◌++◌, map, Option, none, some, or_else,
  or_text, Text, text, same, Obj, put_all, if◌then◌else◌, length,
}
use scrapydweb.Js.Decimal.{show}
use scrapydweb.Js.Uri.{encode_uri}
use scrapydweb.Payload.{now, cron, Mode, ScheduleForm}
use scrapydweb.Payload.Form.{node_fields, build_schedule_form}

-- One `postForm`: where it goes and what it sends.
pub record Post : Type 0 where
  pub url : Text
  pub fields : Obj Text

pub data Attempt (A : Type 0) : Type 0 where
  resolved : A → Attempt A
  rejected : (message : Text) → Attempt A

-- The fields that the page reads of an answer, each absent or a text.
pub record Reply : Type 0 where
  pub status : Option Text
  pub filename : Text
  pub message : Option Text
  pub flash : Option Text
  pub task_id : Option Text
  pub jobid : Option Text
  pub error : Option Text
  pub alert : Option Text

pub record FanOut : Type 0 where
  pub node : ℕ
  pub ok : Bool
  pub message : Text

-- The posts that were made, in order, and how the mutation ended.
pub record Run : Type 0 where
  pub posts : List Post
  pub result : Attempt (Reply × List FanOut)

abbrev pub is_status_ok : Reply → Bool
is_status_ok r = elim r.status [ none ↦ false | some s ↦ same s (text "ok") ]

abbrev pub check_url : ℕ → Text
check_url node = text "/" ++ (show node ++ text "/schedule/check/")

abbrev pub run_url : ℕ → Text
run_url node = text "/" ++ (show node ++ text "/schedule/run/")

abbrev pub xhr_url : ℕ → Text → Text
xhr_url n file = text "/" ++ (show n ++ (text "/schedule/xhr/" ++ (file ++ text "/")))

unfoldable pub run_fields : Text → List ℕ → Obj Text
run_fields filename ns = put_all (node_fields ns) (
    (text "filename", filename)
    ∷ (text "as_json", text "True")
    ∷ (text "checked_amount", show (length ns))
    ∷ [])

-- `v.nodes.slice(1)`
abbrev pub others : List ℕ → List ℕ
others [] = []
others (n ∷ ns) = ns

abbrev fan_result : ℕ → Attempt Reply → FanOut
fan_result n (resolved r) = record { node = n; ok = is_status_ok r; message = or_else r.message [] }
fan_result n (rejected m) = record { node = n; ok = false; message = m }

-- The backend is a function from posts to answers.
module _ (post_form : Post → Attempt Reply) where
  abbrev pub xhr : ℕ → Text → Post
  xhr n file = record { url = xhr_url n file; fields = [] }

  -- The loop over the other nodes, with `encodeURIComponent(chk.filename)` computed; a failure is
  -- recorded and the loop goes on.
  unfoldable pub fan_out : Text → List ℕ → List Post × List FanOut
  fan_out file [] = ([], [])
  fan_out file (n ∷ ns) =
      let (posts, results) = fan_out file ns in
      (xhr n file ∷ posts, fan_result n (post_form (xhr n file)) ∷ results)

  -- A file name that cannot be encoded makes each round throw before its post.
  unfoldable pub fan_out_encoded : Option Text → List ℕ → List Post × List FanOut
  fan_out_encoded (some file) ns = fan_out file ns
  fan_out_encoded none ns =
      ([], map (λ n. record { node = n; ok = false; message = text "URI malformed" }) ns)

  abbrev pub fans_out : Mode → Reply → Bool
  fans_out now r = is_status_ok r
  fans_out cron r = false

  unfoldable pub after_run : ScheduleForm → Reply → Reply → List Post × List FanOut
  after_run v chk res =
      if fans_out v.mode res
      then fan_out_encoded (encode_uri chk.filename) (others v.nodes)
      else ([], [])

  abbrev pub check_post : ℕ → ScheduleForm → Post
  check_post node v = record { url = check_url node; fields = build_schedule_form v }

  abbrev pub run_post : ℕ → ScheduleForm → Reply → Post
  run_post node v chk = record { url = run_url node; fields = run_fields chk.filename v.nodes }

  unfoldable pub run : ℕ → ScheduleForm → Run
  run node v = elim (post_form (check_post node v)) [
    | rejected m ↦ record { posts = check_post node v ∷ []; result = rejected m }
    | resolved chk ↦ elim (post_form (run_post node v chk)) [
      | rejected m ↦ record {
        posts = check_post node v ∷ run_post node v chk ∷ [];
        result = rejected m;
      }
      | resolved res ↦ record {
        posts = check_post node v ∷ run_post node v chk ∷ (after_run v chk res).0;
        result = resolved (res, (after_run v chk res).1);
      }
    ]
  ]

-- What the user is told, and where the page goes.
pub data Effect : Type 0 where
  success failure : Text → Effect
  navigate : Text → Effect

-- `if (!f.ok) toast.error(…)`
unfoldable pub fan_toasts : List FanOut → List Effect
fan_toasts [] = []
fan_toasts (f ∷ fs) =
    let rest = fan_toasts fs in
    if f.ok
    then rest
    else failure
        (text "node " ++ (show f.node ++ (text ": " ++ or_text f.message (text "schedule failed"))))
      ∷ rest

abbrev undefined_text : Option Text → Text
undefined_text none = text "undefined"
undefined_text (some s) = s

abbrev or_undefined : Option Text → Text → Text
or_undefined none d = d
or_undefined (some s) d = s

unfoldable pub final_effects : Mode → Bool → Reply → List Effect
final_effects cron true res =
    success
      (or_undefined res.flash (text "Task #" ++ (undefined_text res.task_id ++ text " added")))
    ∷ navigate (text "/tasks")
    ∷ []
final_effects now true res =
    success (text "Spider scheduled — jobid " ++ undefined_text res.jobid)
    ∷ navigate (text "/jobs")
    ∷ []
final_effects cron false res =
    failure (or_undefined res.error (or_undefined res.alert (text "Schedule failed"))) ∷ []
final_effects now false res =
    failure (or_undefined res.error (or_undefined res.alert (text "Schedule failed"))) ∷ []

unfoldable pub on_success : Reply → List FanOut → Mode → List Effect
on_success res fanout mode = fan_toasts fanout ++ final_effects mode (is_status_ok res) res

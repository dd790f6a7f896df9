-- ===== src/Examples/Forms.antt =====
-- The Run Spider form: a form for a timer task and one for an immediate run.
use scrapydweb.Base.{
  ◌≡◌, ◌↔◌, refl, Bool, true, false, not, List, [], ◌∷◌, ◌++◌, map, none, some, Text, text, get,
  includes, filter, all, All, length, includes_text, if◌then◌else◌, any, same, find,
}
use scrapydweb.Js.Json.{Json, pretty}
use scrapydweb.Js.Decimal.{show, is_digit}
use scrapydweb.Js.Strings.{has_unit}
use scrapydweb.Js.Uri.{
  encode_uri, encode_unit, encode_pair, is_unreserved, is_alnum, is_high, is_low,
}
use scrapydweb.Api.Types.{TaskRow, running}
use scrapydweb.Catalogue.Keys.{
  reserved_arg_keys, setting_key_re, arg_key_re, settings_by_key, is_upper, is_lower,
}
use scrapydweb.Catalogue.Entries.{scrapy_settings}
use scrapydweb.Payload.{Row, ScheduleForm, now, cron, Mode, add, latest}
use scrapydweb.Payload.Sanitize.{sanitize_jobid, IsLegal, sanitize_jobid-IsLegal}
use scrapydweb.Payload.Form.{build_schedule_form, is_filled, args_object, pair}
use scrapydweb.Payload.Form.Reads.{is_cron, timer_fields, get-node, timer_lem}
use scrapydweb.Payload.Shell.{shell_word}
use scrapydweb.Payload.Curl.{body_word, body_word-exact}
use scrapydweb.Schedule.Validate.{
  is_valid, setting_row, fields_fit, refine_issues, setting_issues, def_issues, type_issues,
  arg_issues, arg_row,
}
use scrapydweb.Schedule.Validate.Keeps.{valid_keeps}
use scrapydweb.Schedule.Prefill.{task_to_form}
use scrapydweb.Schedule.Prefill.RoundTrip.{stored, task_to_form-stored}
use scrapydweb.Schedule.Run.{
  Post, Attempt, resolved, Reply, FanOut, is_status_ok, xhr, check_post, run_post, run,
}
use scrapydweb.Schedule.Cards.{used_keys}
use scrapydweb.Js.View.{Raises}
use scrapydweb.Schedule.Cards.Keys.{distinct}
use scrapydweb.Schedule.Cards.KeyBox.{box_view}
use scrapydweb.Schedule.Cards.Offered.{IsFresh, box_view-IsFresh}
use scrapydweb.Schedule.Summary.{curl_body, value_at, posted_at, shared_keys, curl_body-posted}
use scrapydweb.Schedule.Run.Reach.{run-reaches}

abbrev some_settings : List Row
some_settings = record { key = text "ROBOTSTXT_OBEY"; value = text "False" } ∷ []

abbrev some_args : List Row
some_args = record { key = text "category"; value = text "it's new" } ∷ []

abbrev form_in : Mode → ScheduleForm
form_in m = record {
  project = text "demo";
  version = latest;
  spider = text "books";
  jobid = text "run_1";
  nodes = 1 ∷ 3 ∷ [];
  settings = some_settings;
  args = some_args;
  mode = m;
  name = text "nightly";
  action = add;
  task_id = some 7;
  year = text "*";
  month = text "*";
  day = text "*";
  week = text "*";
  day_of_week = text "*";
  hour = text "*";
  minute = text "0";
  second = text "0";
}

sanitize_jobid-IsLegal_example :
    IsLegal (sanitize_jobid (text "a b"))
    × (length (sanitize_jobid (text "a b")) ≡ length (text "a b"))
    × ((sanitize_jobid (text "a b") ≡ text "a b") ↔ IsLegal (text "a b"))
sanitize_jobid-IsLegal_example = sanitize_jobid-IsLegal (text "a b")

body_word-exact_example :
    (shell_word (body_word (Json.str (text "it's"))) ≡ some (pretty (Json.str (text "it's")) 0))
    ↔ (has_unit 39 (pretty (Json.str (text "it's")) 0) ≡ false)
body_word-exact_example = body_word-exact (Json.str (text "it's"))

get-node_example :
    get (show 3) (build_schedule_form (form_in now))
    ≡ (if includes (1 ∷ 3 ∷ []) 3 then some (text "on") else none)
get-node_example = get-node (form_in now) 3

timer_lem_example :
    All
      (λ p. get p.0 (build_schedule_form (form_in cron)) ≡ (if is_cron cron then p.1 else none))
      (timer_fields (form_in cron) (some 7))
timer_lem_example = timer_lem (form_in cron)

abbrev never_nan : Text → Bool
never_nan s = false

form-is_valid : is_valid never_nan (form_in now) ≡ true
unfolding is_valid fields_fit refine_issues setting_issues def_issues type_issues arg_issues all
    setting_row arg_row setting_key_re arg_key_re reserved_arg_keys settings_by_key is_upper
    is_lower is_digit includes_text any same find scrapy_settings
form-is_valid = refl

valid_keeps_example :
    (filter is_filled some_settings ≡ some_settings)
    × (filter is_filled some_args ≡ some_args)
    × (args_object some_args ≡ map pair some_args)
    × (all (λ (r : Row). not (includes_text reserved_arg_keys r.key)) some_args ≡ true)
valid_keeps_example = valid_keeps never_nan (form_in now) form-is_valid

abbrev some_task : TaskRow
some_task = record {
  id = 7;
  name = text "nightly";
  project = text "demo";
  version = [];
  spider = text "books";
  jobid = text "run_1";
  trigger = text "cron";
  create_time = [];
  update_time = [];
  year = text "*";
  month = text "*";
  day = text "*";
  week = text "*";
  day_of_week = text "*";
  hour = text "*";
  minute = text "0";
  second = text "0";
  start_date = none;
  end_date = none;
  timezone = none;
  settings_arguments = [];
  selected_nodes = [];
  status = running;
  next_run_time = none;
  run_times = 0;
  fail_times = 0;
  prev_run_result = [];
}

settings-kept : all setting_row some_settings ≡ true
unfolding all setting_row setting_key_re is_upper is_digit
settings-kept = refl

abbrev late_args : List Row
late_args = record { key = text "tag"; value = text "a" } ∷ []

args-kept :
    (all (λ (r : Row). not (includes_text reserved_arg_keys r.key)) some_args ≡ true)
    × (all (λ (r : Row). not (includes_text reserved_arg_keys r.key)) late_args ≡ true)
unfolding all includes_text any same reserved_arg_keys
args-kept = (refl, refl)

-- the keys in order: "category", "setting", "tag"
task_to_form-stored_example :
    (v : ScheduleForm) × (task_to_form
        (some (stored some_args some_settings late_args))
        (some (1 ∷ 3 ∷ []))
        some_task
      ≡ some v)
    × (v.settings ≡ some_settings)
    × (v.args ≡ some_args ++ late_args)
    × (v.nodes ≡ 1 ∷ 3 ∷ [])
    × (v.mode ≡ cron)
    × (v.task_id ≡ some 7)
task_to_form-stored_example =
    task_to_form-stored some_args some_settings late_args 1 (3 ∷ []) some_task settings-kept
      args-kept.0 args-kept.1

abbrev accepted : Reply
accepted = record {
  status = some (text "ok");
  filename = text "demo_books.pickle";
  message = none;
  flash = none;
  task_id = none;
  jobid = some (text "run_1");
  error = none;
  alert = none;
}

abbrev accepts : Post → Attempt Reply
accepts p = resolved accepted

status-ok : is_status_ok accepted ≡ true
unfolding same
status-ok = refl

file-encoded : encode_uri (text "demo_books.pickle") ≡ some (text "demo_books.pickle")
unfolding encode_uri encode_unit encode_pair is_unreserved is_alnum is_high is_low
file-encoded = refl

run-reaches_example :
    (results : List FanOut) × ((run accepts 1 (form_in now)).posts
      ≡ check_post accepts 1 (form_in now)
        ∷ run_post accepts 1 (form_in now) accepted
        ∷ map (λ n. xhr accepts n (text "demo_books.pickle")) (3 ∷ []))
    × ((run accepts 1 (form_in now)).result ≡ resolved (accepted, results))
    × (map (λ (f : FanOut). f.node) results ≡ 3 ∷ [])
run-reaches_example =
    run-reaches accepts 1 (form_in now) accepted accepted (text "demo_books.pickle") refl refl refl
      status-ok file-encoded

curl_body-posted_example :
    All
      (λ p.
        get p.0 (build_schedule_form (form_in cron))
        ≡ posted_at (value_at p.1 (curl_body (form_in cron))))
      shared_keys
curl_body-posted_example = curl_body-posted (form_in cron)

abbrev two_settings : List Row
two_settings =
    record { key = text "ROBOTSTXT_OBEY"; value = text "False" }
    ∷ record { key = text "LOG_LEVEL"; value = text "INFO" }
    ∷ []

two_settings-distinct : distinct (used_keys two_settings) ≡ true
unfolding used_keys includes_text any same filter distinct
two_settings-distinct = refl

-- the box of the second row, where a key is typed that is not in the catalogue
box_view-IsFresh_example : All (Raises (IsFresh two_settings 1)) (
    box_view
      (λ t. t)
      (λ search value. true)
      (text "LOG_LEVEL")
      (used_keys two_settings)
      (record { is_open = true; search = text "MY_KEY" }))
box_view-IsFresh_example =
    box_view-IsFresh (λ t. t) (λ search value. true) two_settings 1
      (record { key = text "LOG_LEVEL"; value = text "INFO" }) refl two_settings-distinct
      (record { is_open = true; search = text "MY_KEY" })

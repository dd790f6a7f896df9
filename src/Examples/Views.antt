-- ===== src/Examples/Views.antt =====
-- What the pages show: a page that is ready to upload, the pager, the cards and the dialogs.
use scrapydweb.Base.{
  arith, ℕ, ◌≡◌, refl, ap, Bool, true, false, Option, some, none, List, [], ◌∷◌, Text, text, Obj,
  get, All, all,
}
use scrapydweb.Js.Decimal.{show, read, read-show}
use scrapydweb.Js.Strings.{has_unit, trim, drop_space, is_space}
use scrapydweb.Js.View.{Raises, Labelled}
use scrapydweb.Js.Json
use scrapydweb.Js.Json.{Fields}
use scrapydweb.Api.Types.{TaskRow, running}
use scrapydweb.Payload.{ScheduleForm, cron, add, latest}
use scrapydweb.Deploy.Page.{PageState, IsReady, page_view, page_view-IsReady}
use scrapydweb.Jobs.Pager.{Lands, page_count, controls, controls-Lands}
use scrapydweb.Settings.Controls.{IsItem}
use scrapydweb.Settings.ListInput
use scrapydweb.Settings.ListInput.{IsRead, IsGiven, run-mount}
use scrapydweb.Schedule.Prefill.{task_to_form, stored_settings, stored_args}
use scrapydweb.Schedule.Page.{form, load, at_task, submit, load-posted}
use scrapydweb.Schedule.Validate.{is_valid, fields_fit, refine_issues, setting_issues, arg_issues}
use scrapydweb.Schedule.Run.{Post, Attempt, resolved, Reply, check_post, run_post}
use scrapydweb.Schedule.Cron
use scrapydweb.Schedule.Cron.{CronSpec, last_spec, debounced-timeout}
use scrapydweb.Frame.Password.{PasswordForm, Sends, dialog_view, dialog_view-Sends}
use scrapydweb.Projects.Page.{CardState}

abbrev as_is : Text → Text
as_is t = t

abbrev chosen : PageState
chosen = record {
  target = record {
    folder = text "demo";
    project = text "demo";
    version = text "v1";
    nodes = 1 ∷ [];
  };
  archive = some (text "demo.egg");
  drag_over = false;
  pending = false;
}

page_view-IsReady_example : All (Raises (IsReady chosen)) (page_view as_is 1 none chosen)
page_view-IsReady_example = page_view-IsReady as_is 1 none chosen

abbrev number : Text → Option ℕ
number s = some (read 0 s)

number-show : (n : ℕ) → number (show n) ≡ some n
number-show n = ap some (read-show n)

abbrev third_page : Obj Text
third_page = (text "page", text "3") ∷ []

controls-Lands_example :
    All
      (Labelled (Lands number third_page (page_count number third_page (some (3, 4)))))
      (controls number third_page (some (3, 4)))
controls-Lands_example = controls-Lands number number-show third_page (some (3, 4))

abbrev levels : List Text
levels = text "ERROR" ∷ text "CRITICAL" ∷ []

levels-items : All IsItem levels
unfolding has_unit trim drop_space is_space
levels-items = ((refl, refl, refl, refl), ((refl, refl, refl, refl), tt))

abbrev edits : List ListInput.Event
edits =
    ListInput.focus ∷ ListInput.typed (text "a,, b ") ∷ ListInput.blur ∷ ListInput.given levels ∷ []

run-mount_example : IsRead (ListInput.run edits (ListInput.mount levels))
run-mount_example = run-mount levels edits levels-items (tt, (tt, (tt, (levels-items, tt))))

abbrev a_task : ℕ → TaskRow
a_task id = record {
  id = id;
  name = text "nightly";
  project = text "demo";
  version = [];
  spider = text "books";
  jobid = text "run_1";
  trigger = text "cron";
  create_time = [];
  update_time = [];
  year = text "*";
  month = text "*";
  day = text "*";
  week = text "*";
  day_of_week = text "*";
  hour = text "*";
  minute = text "0";
  second = text "0";
  start_date = none;
  end_date = none;
  timezone = none;
  settings_arguments = [];
  selected_nodes = [];
  status = running;
  next_run_time = none;
  run_times = 0;
  fail_times = 0;
  prev_run_result = [];
}

abbrev no_settings : Text → Option Fields
no_settings t = some Json.end

abbrev first_node : Text → Option (List ℕ)
first_node t = some (1 ∷ [])

abbrev task_form : ScheduleForm
task_form = record {
  project = text "demo";
  version = latest;
  spider = text "books";
  jobid = text "run_1";
  nodes = 1 ∷ [];
  settings = [];
  args = [];
  mode = cron;
  name = text "nightly";
  action = add;
  task_id = some 7;
  year = text "*";
  month = text "*";
  day = text "*";
  week = text "*";
  day_of_week = text "*";
  hour = text "*";
  minute = text "0";
  second = text "0";
}

task_form-read : task_to_form (no_settings []) (first_node []) (a_task 7) ≡ some task_form
unfolding task_to_form stored_settings stored_args
task_form-read = refl

abbrev answer : Reply
answer = record {
  status = some (text "ok");
  filename = text "demo_books.pickle";
  message = none;
  flash = none;
  task_id = none;
  jobid = none;
  error = none;
  alert = none;
}

abbrev answers : Post → Attempt Reply
answers p = resolved answer

abbrev is_number : Text → Bool
is_number s = false

task_form-is_valid : is_valid is_number task_form ≡ true
unfolding is_valid fields_fit refine_issues setting_issues arg_issues all
task_form-is_valid = refl

load-posted_example :
    (load number no_settings first_node 1 (at_task 7) (some (a_task 3 ∷ a_task 7 ∷ a_task 9 ∷ []))
      ≡ form (some (some 7)) task_form)
    × (submit is_number answers 1 task_form
        ≡ some (record {
          posts = check_post answers 1 task_form ∷ run_post answers 1 task_form answer ∷ [];
          result = resolved (answer, []);
        }))
    × (get (text "trigger") (check_post answers 1 task_form).fields ≡ some (text "cron"))
    × (get (text "task_id") (check_post answers 1 task_form).fields ≡ some (show 7))
    × (get (text "replace_existing") (check_post answers 1 task_form).fields ≡ some (text "True"))
load-posted_example =
    load-posted number no_settings first_node is_number answers 1 (a_task 3 ∷ []) (a_task 9 ∷ [])
      (a_task 7) task_form answer answer (number-show 7) (omega arith) (refl, tt) task_form-read
      task_form-is_valid refl refl

abbrev hourly : CronSpec
hourly = record {
  minute = text "0";
  hour = text "*";
  day = text "*";
  month = text "*";
  day_of_week = text "*";
  second = text "0";
  week = text "*";
  year = text "*";
}

abbrev nightly : CronSpec
nightly = record hourly { hour = text "3" }

abbrev renders : List Cron.Event
renders = Cron.timeout ∷ Cron.renders nightly ∷ Cron.renders nightly ∷ []

debounced-timeout_example :
    (Cron.handle Cron.timeout (Cron.run renders (Cron.mount hourly))).debounced
    ≡ last_spec renders hourly
debounced-timeout_example = debounced-timeout hourly renders

abbrev never_nan : Text → Bool
never_nan s = false

abbrev typed_twice : PasswordForm
typed_twice = record {
  current = text "old";
  next = text "new";
  confirm = text "new";
  error = [];
  busy = false;
  is_open = true;
}

dialog_view-Sends_example : All (Raises (Sends typed_twice)) (dialog_view typed_twice)
dialog_view-Sends_example = dialog_view-Sends typed_twice

abbrev open_card : CardState
open_card = record { is_open = true; configuring = false; deploying = false; pruning = false }

abbrev two_versions : Option (List Text)
two_versions = some (text "1" ∷ text "2" ∷ [])

abbrev all_shown : Text → Bool
all_shown v = true

abbrev one_spider : Text → Option (List Text)
one_spider v = some (text "books" ∷ [])

abbrev as_time : ℕ → Text
as_time n = show n

-- ===== src/Tasks.antt =====
-- pages/tasks.tsx: the pill, the trigger and the actions of a timer task, and the scheduler's switch.
pub mod Table
use scrapydweb.Base.{
  ℕ, Bool, true, false, not, ◌&&◌, none, some, List, [], ◌∷◌, ◌++◌, Text, text, truthy, same,
  if◌then◌else◌,
}
use scrapydweb.Js.Decimal.{show}
use scrapydweb.Api.Types.{TaskRow, TaskStatus, running, paused, finished}
use scrapydweb.Api.Calls.{Call, task_action}

pub data PillClass : Type 0 where
  run pend fin : PillClass

-- `PILL`
unfoldable pub task_pill : TaskStatus → PillClass × Text
task_pill running = (run, text "RUNNING")
task_pill paused = (pend, text "PAUSED")
task_pill finished = (fin, text "FINISHED")

-- `triggerSummary`
unfoldable pub trigger_summary : TaskRow → Text
trigger_summary t =
    let dow =
      if truthy t.day_of_week && not (same t.day_of_week (text "*"))
      then text " dow=" ++ t.day_of_week
      else [] in
    if same t.trigger (text "cron")
    then text "cron "
      ++ (t.minute
          ++ (text " " ++ (t.hour ++ (text " " ++ (t.day ++ (text " " ++ (t.month ++ dow)))))))
    else t.trigger

-- a button of a task's row; `confirmed` ones ask first
pub data Act : Type 0 where
  history edit : Act
  fire pause resume : Act
  delete remove : Act

abbrev pub when_finished : TaskStatus → Bool
when_finished finished = true
when_finished _ = false

abbrev pub only : Bool → Act → List Act
only true a = a ∷ []
only false a = []

abbrev pub is_running : TaskStatus → Bool
is_running running = true
is_running _ = false

abbrev pub is_paused : TaskStatus → Bool
is_paused paused = true
is_paused _ = false

-- the buttons of a row, in their order
unfoldable pub row_acts : TaskStatus → List Act
row_acts s =
    history
    ∷ edit
    ∷ (only (not (when_finished s)) fire
        ++ (only (is_running s) pause
            ++ (only (is_paused s) resume ++ (if when_finished s then delete else remove) ∷ [])))

unfoldable pub asks : Act → Bool
asks delete = true
asks remove = true
asks _ = false

-- What a button does: it opens a page, or it calls the scheduler with a verb for the toasts.
pub data Effect : Type 0 where
  visit : Text → Effect
  call : Call → (verb : Text) → Effect

abbrev task_text : ℕ → Text → Text
task_text id rest = text "Task #" ++ (show id ++ rest)

unfoldable pub run_act : ℕ → ℕ → Act → Effect
run_act node id history = visit (text "/jobs?q=task_" ++ (show id ++ text "_"))
run_act node id edit = visit (text "/schedule?timer=1&taskId=" ++ show id)
run_act node id fire =
    call (task_action node (text "fire") (some id)) (task_text id (text " fired"))
run_act node id pause =
    call (task_action node (text "pause") (some id)) (task_text id (text " paused"))
run_act node id resume =
    call (task_action node (text "resume") (some id)) (task_text id (text " resumed"))
run_act node id delete =
    call (task_action node (text "delete") (some id)) (task_text id (text " deleted"))
run_act node id remove =
    call (task_action node (text "remove") (some id)) (task_text id (text " stopped"))

-- the scheduler's switch
unfoldable pub switch_scheduler : ℕ → Bool → Effect
switch_scheduler node true = call (task_action node (text "enable") none) (text "Scheduler resumed")
switch_scheduler node false =
    call (task_action node (text "disable") none) (text "Scheduler paused")

pub data Toast : Type 0 where
  success error : Text → Toast

-- the status of the reply, its JSON, or the message of an error
pub data Reply : Type 0 where
  status : Text → (json : Text) → Reply
  broken : (message : Text) → Reply

abbrev first : ℕ → Text → Text
first ℕ.zero s = []
first (ℕ.suc n) [] = []
first (ℕ.suc n) (c ∷ s) = c ∷ first n s

unfoldable pub act_toast : Text → Reply → Toast
act_toast verb (status s json) =
    if same s (text "ok")
    then success verb
    else error (verb ++ (text " failed: " ++ first 200 json))
act_toast verb (broken m) = error (verb ++ (text " failed: " ++ m))

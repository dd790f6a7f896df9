-- ===== src/Tasks/Table.antt =====
-- What `TasksPage` shows: the scheduler's switch and a row for each task.
use scrapydweb.Base.{
  ℕ, Bool, true, Option, some, or_else, List, [], ◌∷◌, ◌++◌, map, Text, text, or_text, length, ltb,
  ◌==◌, if◌then◌else◌,
}
use scrapydweb.Js.Decimal.{show}
use scrapydweb.Js.View.{Shown, when, concat_map}
use scrapydweb.Js.View
use scrapydweb.Api.Types.{TaskRow}
use scrapydweb.Tasks.{
  Act, history, edit, fire, pause, resume, delete, remove, row_acts, task_pill, trigger_summary,
}

pub data Event : Type 0 where
  act : (id : ℕ) → Act → Event
  schedule : Bool → Event

unfoldable pub act_label : Act → Text
act_label history = text "Run history"
act_label edit = text "Edit task"
act_label fire = text "Fire now"
act_label pause = text "Pause"
act_label resume = text "Resume"
act_label delete = text "Delete"
act_label remove = text "Stop (remove from scheduler)"

-- the runs, with those that failed
unfoldable pub runs_cell : TaskRow → Text
runs_cell t =
    show t.run_times
    ++ (if ltb 0 t.fail_times then text " (" ++ (show t.fail_times ++ text " fail)") else [])

-- `fmtDateTime` is a parameter.
module _ (fmt_date_time : Option Text → Text) where
  unfoldable pub task_row : TaskRow → List (Shown Event)
  unfolding act_label row_acts runs_cell task_pill trigger_summary
  task_row t =
      View.says (show t.id)
      ∷ View.badge (task_pill t.status).1
      ∷ View.says (or_text t.name (text "—"))
      ∷ View.says (t.project ++ (text " / " ++ t.spider))
      ∷ View.badge (trigger_summary t)
      ∷ View.says (fmt_date_time t.next_run_time)
      ∷ View.says (runs_cell t)
      ∷ View.says t.prev_run_result
      ∷ map (λ a. View.button (act_label a) true (act t.id a)) (row_acts t.status)

  -- the page, for the answer's total and whether the scheduler is on
  unfoldable pub tasks_view : Option ℕ → Option Bool → List TaskRow → List (Shown Event)
  unfolding task_row
  tasks_view total enabled tasks =
      View.says (text "Timer Tasks")
      ∷ View.says (show (or_else total 0) ++ text " tasks")
      ∷ View.link (text "New task") (some (text "/schedule?timer=1"))
      ∷ View.toggle
          (text "Scheduler " ++ (if or_else enabled true then text "running" else text "paused"))
          (or_else enabled true) schedule
      ∷ (when (length tasks == 0)
            (View.says (text "No timer tasks yet — create one from the Run Spider page.") ∷ [])
          ++ concat_map task_row tasks)

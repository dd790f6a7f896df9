-- ===== src/Schedule/Page.antt =====
-- `SchedulePage` and `ScheduleForm`: which form is opened at a URL, what a change of the topbar's node
-- does to it, and what the page shows around the cards.
use scrapydweb.Base.{
  ℕ, zero, suc, ◌≤◌, ◌≡◌, refl, ap, ◌∙◌, Bool, true, false, Option, none, some, List, [], ◌∷◌, ◌++◌,
  Text, text, truthy, Obj, get, find, All, if◌then◌else◌, ◌==◌, arith, same,
}
use scrapydweb.Js.Decimal.{show, truthy-show}
use scrapydweb.Js.Json.{Fields}
use scrapydweb.Js.View.{Shown}
use scrapydweb.Js.View
use scrapydweb.Api.Types.{TaskRow}
use scrapydweb.Payload.{ScheduleForm, cron}
use scrapydweb.Payload.Form.{build_schedule_form}
use scrapydweb.Payload.Form.Reads.{timer_lem}
use scrapydweb.Schedule.Prefill.{task_to_form, blank_form}
use scrapydweb.Schedule.Validate.{is_valid}
use scrapydweb.Schedule.Run.{
  Post, Attempt, resolved, Reply, Run, check_post, run_post, after_run, run,
}

-- `editId`: null, or a number, `none` when the text is none
abbrev EditId : Type 0
EditId = Option (Option ℕ)

-- A page that waits for the tasks, a form with its key and its initial values, or an exception of
-- `taskToForm`.
pub data Opened : Type 0 where
  waiting : Opened
  form : (edit_id : EditId) → (initial : ScheduleForm) → Opened
  broken : Opened

-- `Number` and the two calls of `JSON.parse` on a task's texts are parameters.
module _ (number : Text → Option ℕ) (settings_of : Text → Option Fields)
    (nodes_of : Text → Option (List ℕ)) where
  abbrev id_of : Option Text → EditId
  id_of none = none
  id_of (some []) = none
  id_of (some (c ∷ s)) = some (number (c ∷ s))

  unfoldable pub edit_id : Obj Text → EditId
  unfolding get
  edit_id params = id_of (get (text "taskId") params)

  unfoldable pub task_of : Option ℕ → List TaskRow → Option TaskRow
  unfolding find
  task_of none tasks = none
  task_of (some id) tasks = find (λ (t : TaskRow). t.id == id) tasks

  abbrev opened : EditId → Option ScheduleForm → Opened
  opened id none = broken
  opened id (some v) = form id v

  abbrev edited : EditId → ScheduleForm → Option TaskRow → Opened
  edited id blank none = form id blank
  edited id blank (some t) =
      opened id (task_to_form (settings_of t.settings_arguments) (nodes_of t.selected_nodes) t)

  abbrev open_at : EditId → ScheduleForm → Option (List TaskRow) → Opened
  open_at none blank tasks = form none blank
  open_at (some id) blank none = waiting
  open_at (some id) blank (some tasks) = edited (some id) blank (task_of id tasks)

  -- the loader, for the tasks that the query has
  unfoldable pub load : ℕ → Obj Text → Option (List TaskRow) → Opened
  unfolding edit_id task_of task_to_form blank_form
  load node params tasks = open_at (edit_id params) (blank_form node params) tasks

-- `form.handleSubmit((v) => run.mutate(v))`: a form that the schema refuses is not handed on
unfoldable pub submit : (Text → Bool) → (Post → Attempt Reply) → ℕ → ScheduleForm → Option Run
unfolding is_valid run
submit is_nan post_form node v = if is_valid is_nan v then some (run post_form node v) else none

-- the effect on `[node]`, with whether the field of nodes is dirty
unfoldable pub sync_nodes : EditId → Bool → ℕ → ScheduleForm → ScheduleForm
sync_nodes none false node v = record v { nodes = node ∷ [] }
sync_nodes none true node v = v
sync_nodes (some id) dirty node v = v

abbrev number_text : Option ℕ → Text
number_text none = text "NaN"
number_text (some n) = show n

-- the heading
unfoldable pub title : EditId → ℕ → List (Shown (Unit {0}))
title none node = View.says (text "Run Spider") ∷ View.says (text "node " ++ show node) ∷ []
title (some id) node =
    View.says (text "Edit Task #" ++ number_text id) ∷ View.says (text "node " ++ show node) ∷ []

task_to_form-cron :
    (sa : Option Fields) (ns : Option (List ℕ)) (t : TaskRow) (v : ScheduleForm)
    → task_to_form sa ns t ≡ some v
    → (v.mode ≡ cron) × (v.task_id ≡ some t.id)
unfolding task_to_form
task_to_form-cron sa ns t v h = ground (arith, h)

-- A task's fields are posted when its id is not 0.
posted-again :
    (v : ScheduleForm) (id : ℕ)
    → 1 ≤ id
    → v.mode ≡ cron
    → v.task_id ≡ some id
    → (get (text "trigger") (build_schedule_form v) ≡ some (text "cron"))
      × (get (text "task_id") (build_schedule_form v) ≡ some (show id))
      × (get (text "replace_existing") (build_schedule_form v) ≡ some (text "True"))
posted-again v zero p m t = elim p [ ]
posted-again v (suc n) p m t =
    let fs = timer_lem v in
    (fs.0 ∙ rw m refl, fs.1.1.1.0 ∙ rw (m, t) refl, fs.1.1.1.1.0 ∙ rw (m, t) refl)

after_run-cron :
    (post_form : Post → Attempt Reply) (v : ScheduleForm) (chk res : Reply)
    → v.mode ≡ cron
    → after_run post_form v chk res ≡ ([], [])
unfolding after_run
after_run-cron post_form v chk res m = rw m refl

-- A timer task is sent by two posts.
run-cron :
    (post_form : Post → Attempt Reply) (node : ℕ) (v : ScheduleForm) (chk res : Reply)
    → v.mode ≡ cron
    → post_form (check_post post_form node v) ≡ resolved chk
    → post_form (run_post post_form node v chk) ≡ resolved res
    → run post_form node v ≡ record {
      posts = check_post post_form node v ∷ run_post post_form node v chk ∷ [];
      result = resolved (res, []);
    }
unfolding run
run-cron post_form node v chk res m c r =
    rw (c, run) (rw (r, run) (rw (after_run-cron post_form v chk res m) refl))

submit-valid :
    (is_nan : Text → Bool) (post_form : Post → Attempt Reply) (node : ℕ) (v : ScheduleForm)
    → is_valid is_nan v ≡ true
    → submit is_nan post_form node v ≡ some (run post_form node v)
unfolding submit
submit-valid is_nan post_form node v i = rw i refl

find-first :
    (before after : List TaskRow) (t : TaskRow)
    → All (λ (b : TaskRow). (b.id == t.id) ≡ false) before
    → find (λ (x : TaskRow). x.id == t.id) (before ++ t ∷ after) ≡ some t
unfolding find
find-first [] after t h = ground arith
find-first (b ∷ before) after t h = ground (arith, h.0, find-first before after t h.1)

abbrev pub at_task : ℕ → Obj Text
at_task id = (text "taskId", show id) ∷ []

module _ (number : Text → Option ℕ) (settings_of : Text → Option Fields)
    (nodes_of : Text → Option (List ℕ)) where
  id_of-text :
      (s : Text) → truthy s ≡ true → id_of number settings_of nodes_of (some s) ≡ some (number s)
  id_of-text [] h = cc
  id_of-text (c ∷ s) h = refl

  edit_id-at_task :
      (id : ℕ)
      → number (show id) ≡ some id
      → edit_id number settings_of nodes_of (at_task id) ≡ some (some id)
  unfolding edit_id get same
  edit_id-at_task id h = id_of-text (show id) (truthy-show id) ∙ ap some h

  -- The page opened to edit a task that the list has, with a number over 0 that no task before it has,
  -- shows the form of that task, when its settings can be read. When that form is valid and the two
  -- requests are answered, submitting it at once makes two posts, of which the first holds a timer task
  -- under the same number, which is to replace the task.
  pub load-posted :
      (is_nan : Text → Bool) (post_form : Post → Attempt Reply) (node : ℕ)
      (before after : List TaskRow) (t : TaskRow) (v : ScheduleForm) (chk res : Reply)
      → number (show t.id) ≡ some t.id
      → 1 ≤ t.id
      → All (λ (b : TaskRow). (b.id == t.id) ≡ false) before
      → task_to_form (settings_of t.settings_arguments) (nodes_of t.selected_nodes) t ≡ some v
      → is_valid is_nan v ≡ true
      → post_form (check_post post_form node v) ≡ resolved chk
      → post_form (run_post post_form node v chk) ≡ resolved res
      → (load number settings_of nodes_of node (at_task t.id) (some (before ++ t ∷ after))
          ≡ form (some (some t.id)) v)
        × (submit is_nan post_form node v
            ≡ some (record {
              posts = check_post post_form node v ∷ run_post post_form node v chk ∷ [];
              result = resolved (res, []);
            }))
        × (get (text "trigger") (check_post post_form node v).fields ≡ some (text "cron"))
        × (get (text "task_id") (check_post post_form node v).fields ≡ some (show t.id))
        × (get (text "replace_existing") (check_post post_form node v).fields ≡ some (text "True"))
  unfolding load task_of
  load-posted is_nan post_form node before after t v chk res r p b h i c a =
      let m =
        task_to_form-cron (settings_of t.settings_arguments) (nodes_of t.selected_nodes) t v h in
      let (trigger, task_id, replaces) = posted-again v t.id p m.0 m.1 in
      (
        rw (edit_id-at_task t.id r, find-first before after t b, h) refl,
        submit-valid is_nan post_form node v i
            ∙ ap some (run-cron post_form node v chk res m.0 c a),
        trigger,
        task_id,
        replaces,
      )

-- ===== src/Groups/Run.antt =====
-- `RunDialog` and `ScheduleDialog` over time: the states that they keep while they open and close.
use scrapydweb.Base.{
  ℕ, ◌≡◌, refl, ap, ◌∙◌, Bool, true, false, not, Option, none, some, List, [], ◌∷◌, ◌++◌, Text,
  text, All, length, ltb,
}
use scrapydweb.Js.Decimal.{show}
use scrapydweb.Js.View.{Shown}
use scrapydweb.Js.View
use scrapydweb.Api.Types.{JobGroup}
use scrapydweb.Api.Calls.{Call}
use scrapydweb.Payload.{Row}
use scrapydweb.Groups.Dialogs.{
  set_key, set_row_value, remove_row, add_row, fire_call, fire_text, Cron, schedule_call,
  schedule_text,
}

pub data RowEvent : Type 0 where
  type_key type_value : ℕ → Text → RowEvent
  remove : ℕ → RowEvent
  add : RowEvent

-- `ArgRows`
unfoldable pub edit_rows : RowEvent → List Row → List Row
unfolding set_key set_row_value remove_row add_row
edit_rows (type_key i t) rows = set_key i t rows
edit_rows (type_value i t) rows = set_row_value i t rows
edit_rows (remove i) rows = remove_row i rows
edit_rows add rows = add_row rows

abbrev rows_from : ℕ → List Row → List (Shown RowEvent)
rows_from i [] = View.button (text "Add arg") true add ∷ []
rows_from i (r ∷ rows) =
    View.input r.key true (type_key i)
    ∷ View.input r.value true (type_value i)
    ∷ View.button (text "Remove") true (remove i)
    ∷ rows_from (ℕ.suc i) rows

unfoldable pub rows_view : List Row → List (Shown RowEvent)
rows_view rows = rows_from 0 rows

-- `RunDialog`, which stays mounted: the group is the page's `runFor`
pub record RunState : Type 0 where
  pub group : Option JobGroup
  pub rows : List Row
  pub pending : Bool

unfoldable pub mount_run : RunState
mount_run = record { group = none; rows = record { key = []; value = [] } ∷ []; pending = false }

-- How the request settles: the numbers of the answer, or an error.
pub data Reply : Type 0 where
  answered : (scheduled total : ℕ) → Reply
  failed : (message : Text) → Reply

pub data RunEvent : Type 0 where
  open_for : JobGroup → RunEvent
  close : RunEvent
  edit : RowEvent → RunEvent
  fire : RunEvent
  settled : Reply → RunEvent

unfoldable pub handle_run : RunEvent → RunState → RunState
unfolding edit_rows
handle_run (open_for g) s = record s { group = some g }
handle_run close s = record s { group = none }
handle_run (edit e) s = record s { rows = edit_rows e s.rows }
handle_run fire s = record s { pending = true }
handle_run (settled (answered n total)) s = record s { group = none; pending = false }
handle_run (settled (failed m)) s = record s { pending = false }

-- the request of "Fire now", when a group is chosen
unfoldable pub fired : RunState → Option Call
unfolding fire_call
fired s = elim s.group [ none ↦ none | some g ↦ some (fire_call g.id s.rows) ]

-- what is toasted, true for a success
unfoldable pub run_toast : Reply → Bool × Text
unfolding fire_text
run_toast (answered n total) = (ltb 0 n, fire_text n total)
run_toast (failed m) = (false, text "Fire failed: " ++ m)

unfoldable pub run_dialog : List RunEvent → RunState → RunState
unfolding handle_run
run_dialog [] s = s
run_dialog (e ∷ es) s = run_dialog es (handle_run e s)

-- an event that is no edit of the rows
abbrev pub KeepsRows : RunEvent → Type 0
KeepsRows (open_for g) = Unit
KeepsRows close = Unit
KeepsRows (edit e) = ⊥
KeepsRows fire = Unit
KeepsRows (settled r) = Unit

rows-handle_run : (e : RunEvent) (s : RunState) → KeepsRows e → (handle_run e s).rows ≡ s.rows
unfolding handle_run
rows-handle_run (open_for g) s k = refl
rows-handle_run close s k = refl
rows-handle_run (edit e) s k = absurd k
rows-handle_run fire s k = refl
rows-handle_run (settled (answered n total)) s k = refl
rows-handle_run (settled (failed m)) s k = refl

rows-run_dialog :
    (es : List RunEvent) (s : RunState) → All KeepsRows es → (run_dialog es s).rows ≡ s.rows
unfolding run_dialog
rows-run_dialog [] s k = refl
rows-run_dialog (e ∷ es) s k = rows-run_dialog es (handle_run e s) k.1 ∙ rows-handle_run e s k.0

-- The arguments typed for one group are kept when the dialog closes, whether the group was fired or
-- not: once the dialog is open for another group, with no edit of the rows since, "Fire now" sends
-- the same arguments for that group.
pub fired-open_for :
    (s : RunState) (es : List RunEvent) (g : JobGroup)
    → All KeepsRows es
    → fired (handle_run (open_for g) (run_dialog es s)) ≡ some (fire_call g.id s.rows)
unfolding fired handle_run
fired-open_for s es g k = ap (λ rows. some (fire_call g.id rows)) (rows-run_dialog es s k)

abbrev name_of : Option JobGroup → Text
name_of none = []
name_of (some g) = g.name

unfoldable pub run_view : RunState → List (Shown RunEvent)
run_view s =
    View.says (text "Run \"" ++ (name_of s.group ++ text "\" with args"))
    ∷ View.button (text "Cancel") true close
    ∷ View.button (text "Fire now") (not s.pending) fire
    ∷ []

-- `ScheduleDialog`: its fields, its action and its rows
pub record ScheduleState : Type 0 where
  pub group : Option JobGroup
  pub cron : Cron
  pub action : Text
  pub rows : List Row
  pub pending : Bool

unfoldable pub mount_schedule : ScheduleState
mount_schedule = record {
  group = none;
  cron = record {
    minute = text "0";
    hour = text "*";
    day = text "*";
    month = text "*";
    day_of_week = text "*";
  };
  action = text "add";
  rows = record { key = []; value = [] } ∷ [];
  pending = false;
}

pub data ScheduleEvent : Type 0 where
  open_schedule : JobGroup → ScheduleEvent
  close_schedule : ScheduleEvent
  set_minute set_hour set_day set_month set_day_of_week set_action : Text → ScheduleEvent
  edit_row : RowEvent → ScheduleEvent
  create : ScheduleEvent
  answer : Reply → ScheduleEvent

unfoldable pub handle_schedule : ScheduleEvent → ScheduleState → ScheduleState
unfolding edit_rows
handle_schedule (open_schedule g) s = record s { group = some g }
handle_schedule close_schedule s = record s { group = none }
handle_schedule (set_minute t) s = record s { cron = record s.cron { minute = t } }
handle_schedule (set_hour t) s = record s { cron = record s.cron { hour = t } }
handle_schedule (set_day t) s = record s { cron = record s.cron { day = t } }
handle_schedule (set_month t) s = record s { cron = record s.cron { month = t } }
handle_schedule (set_day_of_week t) s = record s { cron = record s.cron { day_of_week = t } }
handle_schedule (set_action t) s = record s { action = t }
handle_schedule (edit_row e) s = record s { rows = edit_rows e s.rows }
handle_schedule create s = record s { pending = true }
handle_schedule (answer (answered n total)) s = record s { group = none; pending = false }
handle_schedule (answer (failed m)) s = record s { pending = false }

-- the request of "Create tasks", when a group is chosen
unfoldable pub created : ScheduleState → Option Call
unfolding schedule_call
created s = elim s.group [ none ↦ none | some g ↦ some (schedule_call g.id s.cron s.action s.rows) ]

-- what is toasted, and whether the tasks are asked for again
unfoldable pub schedule_toast : Reply → (Bool × Text) × Bool
unfolding schedule_text
schedule_toast (answered n total) = ((ltb 0 n, schedule_text n), true)
schedule_toast (failed m) = ((false, text "Schedule failed: " ++ m), false)

abbrev spiders_of : Option JobGroup → Text
spiders_of none = []
spiders_of (some g) = show (length g.spiders)

unfoldable pub schedule_view : ScheduleState → List (Shown ScheduleEvent)
schedule_view s =
    View.says (text "Schedule \"" ++ (name_of s.group ++ text "\""))
    ∷ View.says (
        text "Creates one timer task per spider ("
        ++ (spiders_of s.group ++ text "). Manage them on the Timer Tasks page."))
    ∷ View.says (text "minute")
    ∷ View.input s.cron.minute true set_minute
    ∷ View.says (text "hour")
    ∷ View.input s.cron.hour true set_hour
    ∷ View.says (text "day")
    ∷ View.input s.cron.day true set_day
    ∷ View.says (text "month")
    ∷ View.input s.cron.month true set_month
    ∷ View.says (text "dow")
    ∷ View.input s.cron.day_of_week true set_day_of_week
    ∷ View.says (text "On create")
    ∷ View.choice s.action (text "add" ∷ text "add_pause" ∷ text "add_fire" ∷ []) true set_action
    ∷ View.says (text "Extra arguments (optional)")
    ∷ View.button (text "Cancel") true close_schedule
    ∷ View.button (text "Create tasks") (not s.pending) create
    ∷ []

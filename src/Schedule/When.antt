-- ===== src/Schedule/When.antt =====
-- `WhenCard`: when a run starts, and the fields of a timer task.
use scrapydweb.Base.{true, List, [], ◌∷◌, Text, text, same, if◌then◌else◌}
use scrapydweb.Js.View.{Shown, when, when_some}
use scrapydweb.Js.View
use scrapydweb.Payload.{
  ScheduleForm, Mode, now, cron, Action, add, add_fire, add_pause, action_text,
}
use scrapydweb.Schedule.Cron.{CronSpec}

-- the spec of the form that the card hands over
unfoldable pub spec_of : ScheduleForm → CronSpec
spec_of v = record {
  minute = v.minute;
  hour = v.hour;
  day = v.day;
  month = v.month;
  day_of_week = v.day_of_week;
  second = v.second;
  week = v.week;
  year = v.year;
}

-- A change of the card for the time.
pub data When : Type 0 where
  set_mode set_name set_action : Text → When
  set_minute set_hour set_day set_month set_day_of_week : Text → When
  set_second set_week set_year : Text → When

abbrev mode_of : Text → Mode → Mode
mode_of v m = if same v (text "now") then now else if same v (text "cron") then cron else m

abbrev action_of : Text → Action → Action
action_of v a =
    if same v (text "add_fire")
    then add_fire
    else if same v (text "add")
    then add
    else if same v (text "add_pause")
    then add_pause
    else a

unfoldable pub change : When → ScheduleForm → ScheduleForm
unfolding same
change (set_mode t) v = record v { mode = mode_of t v.mode }
change (set_name t) v = record v { name = t }
change (set_action t) v = record v { action = action_of t v.action }
change (set_minute t) v = record v { minute = t }
change (set_hour t) v = record v { hour = t }
change (set_day t) v = record v { day = t }
change (set_month t) v = record v { month = t }
change (set_day_of_week t) v = record v { day_of_week = t }
change (set_second t) v = record v { second = t }
change (set_week t) v = record v { week = t }
change (set_year t) v = record v { year = t }

abbrev labelled : Text → Text → (Text → When) → List (Shown When) → List (Shown When)
labelled label value f rest = View.says label ∷ View.input value true f ∷ rest

-- the fields of the cron mode, without the preview
unfoldable pub cron_inputs : ScheduleForm → List (Shown When)
cron_inputs v =
    View.says (text "Task name")
    ∷ View.input v.name true set_name
    ∷ View.says (text "On save")
    ∷ View.choice (action_text v.action) (text "add_fire" ∷ text "add" ∷ text "add_pause" ∷ []) true
        set_action
    ∷ View.says (text "Cron fields (crontab order)")
    ∷ labelled (text "Minute") v.minute set_minute (
        labelled (text "Hour") v.hour set_hour (
          labelled (text "Day") v.day set_day (
            labelled (text "Month") v.month set_month (
              labelled (text "Day of week") v.day_of_week set_day_of_week (
                View.says
                  (text "* every · */10 every 10th · 8-22 range · 1,3,5 list · mon-fri names")
                ∷ labelled (text "Second") v.second set_second (
                    labelled (text "Week of year") v.week set_week
                      (labelled (text "Year") v.year set_year [])))))))

abbrev cron_part : Mode → ScheduleForm → List (Shown When)
cron_part now v = []
cron_part cron v = cron_inputs v

abbrev mode_text : Mode → Text
mode_text now = text "now"
mode_text cron = text "cron"

unfoldable pub when_view : ScheduleForm → List (Shown When)
unfolding cron_inputs action_text
when_view v =
    View.says (text "When")
    ∷ View.choice (mode_text v.mode) (text "now" ∷ text "cron" ∷ []) true set_mode
    ∷ cron_part v.mode v

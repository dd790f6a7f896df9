-- ===== src/Alerts/Rule/View.antt =====
-- What `RuleDialog` shows, and its handlers.
use scrapydweb.Base.{
  Bool, true, false, not, ◌||◌, Option, none, some, List, [], ◌∷◌, ◌++◌, map, Text, text, truthy,
  same, get, if◌then◌else◌,
}
use scrapydweb.Js.Strings.{trim}
use scrapydweb.Js.View.{Shown, when, concat_map}
use scrapydweb.Js.View
use scrapydweb.Api.Types.{AlertRule, ThresholdAction, alert, stop, forcestop}
use scrapydweb.Alerts.Rule.{
  RuleForm, Finished, inherit, on, off, kinds, channels, row_or, set_threshold, set_action,
  toggle_channel,
}

pub data Event : Type 0 where
  type_name type_project type_spider type_interval : Text → Event
  type_threshold choose_action : (kind value : Text) → Event
  choose_finished choose_mode : Text → Event
  channel : Text → Event
  save close : Event

abbrev action_value : ThresholdAction → Text
action_value alert = text "alert"
action_value stop = text "stop"
action_value forcestop = text "forcestop"

abbrev action_named : Text → ThresholdAction
action_named v =
    if same v (text "stop") then stop else if same v (text "forcestop") then forcestop else alert

abbrev finished_value : Finished → Text
finished_value inherit = text "inherit"
finished_value on = text "on"
finished_value off = text "off"

abbrev finished_named : Text → Finished
finished_named v = if same v (text "on") then on else if same v (text "off") then off else inherit

-- the handlers, for the values that the selects offer; a save is `save` of the rule
unfoldable pub handle : Event → RuleForm → RuleForm
unfolding same set_threshold set_action toggle_channel
handle (type_name t) f = record f { name = t }
handle (type_project t) f = record f { project_pattern = t }
handle (type_spider t) f = record f { spider_pattern = t }
handle (type_interval t) f = record f { interval = t }
handle (type_threshold k t) f = set_threshold k t f
handle (choose_action k v) f = set_action k (action_named v) f
handle (choose_finished v) f = record f { on_finished = finished_named v }
handle (choose_mode v) f = record f { override = same v (text "override") }
handle (channel c) f = toggle_channel c f
handle save f = f
handle close f = f

-- a kind with its threshold and its action, which waits for a threshold
unfoldable pub kind_row : RuleForm → Text → List (Shown Event)
unfolding get trim
kind_row f k =
    let row = row_or (get k f.thresholds) in
    View.says k
    ∷ View.input row.threshold true (type_threshold k)
    ∷ View.choice (action_value row.action) (text "alert" ∷ text "stop" ∷ text "forcestop" ∷ [])
        (truthy (trim row.threshold)) (choose_action k)
    ∷ []

abbrev title : Option AlertRule → Text
title none = text "New alert rule"
title (some r) = text "Edit " ++ r.name

abbrev save_label : Option AlertRule → Bool → Text
save_label r true = text "Saving…"
save_label none false = text "Create rule"
save_label (some r) false = text "Save changes"

unfoldable pub dialog_view :
    Option AlertRule → RuleForm → (error : Text) → (busy : Bool) → List (Shown Event)
unfolding kind_row
dialog_view rule f error busy =
    View.says (title rule)
    ∷ View.says (text "Name")
    ∷ View.input f.name true type_name
    ∷ View.says (text "Project pattern")
    ∷ View.input f.project_pattern true type_project
    ∷ View.says (text "Spider pattern")
    ∷ View.input f.spider_pattern true type_spider
    ∷ View.says (text "Log thresholds (empty = inherit global)")
    ∷ (concat_map (kind_row f) kinds
        ++ (View.says (text "Alert when job finishes")
            ∷ View.choice (finished_value f.on_finished)
                (text "inherit" ∷ text "on" ∷ text "off" ∷ []) true choose_finished
            ∷ View.says (text "Alert while running every (s)")
            ∷ View.input f.interval true type_interval
            ∷ View.says (text "Channels")
            ∷ View.choice (if f.override then text "override" else text "inherit")
                (text "inherit" ∷ text "override" ∷ []) true choose_mode
            ∷ (when f.override (map (λ c. View.button c true (channel c)) channels)
                ++ (when (truthy error) (View.says error ∷ [])
                    ++ (View.button (text "Cancel") true close
                        ∷ View.button (save_label rule busy) (not (busy || not (truthy f.name)))
                            save
                        ∷ [])))))

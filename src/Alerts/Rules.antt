-- ===== src/Alerts/Rules.antt =====
-- `AlertsPage` and `ChannelTestCard`: the rules with their switches, and the tests of the channels.
use scrapydweb.Base.{
  take, ℕ, Bool, true, false, not, ◌&&◌, Option, none, some, or_else, List, [], ◌∷◌, ◌++◌, map,
  Text, text, same, length, ◌==◌, is_some, if◌then◌else◌,
}
use scrapydweb.Js.Decimal.{show}
use scrapydweb.Js.Strings.{join}
use scrapydweb.Js.Json
use scrapydweb.Js.View.{Shown, when, when_some, concat_map}
use scrapydweb.Js.View
use scrapydweb.Api.Types.{AlertRule, AlertThresholdSpec, ThresholdAction}
use scrapydweb.Api.Types
use scrapydweb.Api.Calls.{
  Call, Channel, slack, telegram, email, channel_text, test_alert, update_alert_rule,
  delete_alert_rule,
}
use scrapydweb.Alerts.Banner.{Banner, hidden, no_days, no_hours, threshold_badge}

-- `editing`: no dialog, a new rule, or a rule
pub data Editing : Type 0 where
  closed new_rule : Editing
  rule : AlertRule → Editing

pub data Event : Type 0 where
  edit : Editing → Event
  enable : ℕ → Bool → Event
  -- the question before a rule is deleted
  ask_delete : ℕ → (title : Text) → Event
  delete : ℕ → Event

pub data Effect : Type 0 where
  call : Call → Effect
  question : (title description confirm_label : Text) → Effect
  refresh_rules : Effect
  success error : Text → Effect

unfoldable pub action_label : ThresholdAction → Text
action_label Types.alert = text "alert only"
action_label Types.stop = text "alert + stop"
action_label Types.forcestop = text "alert + force-stop"

unfoldable pub handle : Event → Editing → Editing × List Effect
handle (edit e) s = (e, [])
handle (enable id b) s = (
  s,
  call (update_alert_rule id (Json.obj (Json.field (text "enabled") (Json.bool b) Json.end))) ∷ [],
)
handle (ask_delete id title) s = (
  s,
  question title (text "Matching jobs fall back to the global alert settings.") (text "Delete rule")
      ∷ [],
)
handle (delete id) s = (s, call (delete_alert_rule id) ∷ [])

-- the answer of a call, or its exception
pub data Reply : Type 0 where
  answered : (status : Text) → (message : Option Text) → Reply
  thrown : (message : Text) → Reply

unfoldable pub after_toggle : Reply → List Effect
after_toggle (answered status message) = refresh_rules ∷ []
after_toggle (thrown m) = error (text "Update failed: " ++ m) ∷ []

unfoldable pub after_delete : Reply → List Effect
unfolding same
after_delete (answered status message) =
    (if same status (text "ok")
      then success (text "Rule deleted")
      else error (or_else message (text "Delete failed")))
    ∷ refresh_rules
    ∷ []
after_delete (thrown m) = error (text "Delete failed: " ++ m) ∷ []

abbrev finish_badge : Bool → List (Shown Event)
finish_badge b = View.badge (text "finish: " ++ (if b then text "on" else text "off")) ∷ []

-- a rule's row
unfoldable pub rule_row : AlertRule → List (Shown Event)
unfolding threshold_badge join
rule_row r =
    View.says r.name
    ∷ View.says (r.project_pattern ++ (text "/" ++ r.spider_pattern))
    ∷ (map (λ (p : Text × AlertThresholdSpec). View.badge (threshold_badge p.0 p.1)) r.thresholds
        ++ (when_some r.on_finished finish_badge
            ++ (when_some r.on_running_interval
                  (λ n. View.badge (text "every " ++ (show n ++ text "s")) ∷ [])
                ++ (when_some r.channels (λ cs. View.badge (text "→ " ++ join (text ",") cs) ∷ [])
                    ++ View.toggle (text "Enable " ++ r.name) r.enabled (enable r.id)
                      ∷ View.button (text "Edit " ++ r.name) true (edit (rule r))
                      ∷ View.button (text "Delete " ++ r.name) true
                          (ask_delete r.id (text "Delete rule \"" ++ (r.name ++ text "\"?")))
                      ∷ []))))

abbrev banner_view : Banner → List (Shown Event)
banner_view hidden = []
banner_view no_days =
    View.says (text "working days")
    ∷ View.link (text "Settings → Alerts") (some (text "/settings"))
    ∷ []
banner_view no_hours =
    View.says (text "working hours")
    ∷ View.link (text "Settings → Alerts") (some (text "/settings"))
    ∷ []

-- the page, without the test of the channels
unfoldable pub list_view : Banner → (is_loading : Bool) → List AlertRule → List (Shown Event)
unfolding rule_row
list_view banner is_loading rules =
    View.says (text "Alerts")
    ∷ View.says
        (show (length rules) ++ (text " rule" ++ (if length rules == 1 then [] else text "s")))
    ∷ View.button (text "Add rule") true (edit new_rule)
    ∷ (banner_view banner
        ++ View.says (text "Rules")
          ∷ View.link (text "Settings → Alerts") (some (text "/settings"))
          ∷ (when (not is_loading && (length rules == 0))
                (View.says (text "No rules yet — the global settings apply to every job.") ∷ [])
              ++ concat_map rule_row rules))

-- `test`: the channel under test while it is, and the toast when the call ends
unfoldable pub start_test : Channel → Option Channel × Call
start_test c = (some c, test_alert c)

pub data Tested : Type 0 where
  result : (status json : Text) → Tested
  failed : (message : Text) → Tested

unfoldable pub after_test : Channel → Tested → Option Channel × List Effect
unfolding same channel_text
after_test c (result status json) = (
  none,
  (if same status (text "ok")
        then success (channel_text c ++ text " works")
        else error (channel_text c ++ (text ": " ++ take 200 json)))
      ∷ [],
)
after_test c (failed m) = (none, error (channel_text c ++ (text ": " ++ m)) ∷ [])

unfoldable pub test_view : Option Channel → List (Shown Channel)
unfolding channel_text same
test_view busy = map button_of (slack ∷ telegram ∷ email ∷ [])
  where
    is_busy : Option Channel → Channel → Bool
    is_busy none c = false
    is_busy (some b) c = same (channel_text b) (channel_text c)

    button_of : Channel → Shown Channel
    button_of c =
        View.button (if is_busy busy c then text "Sending…" else channel_text c)
          (not (is_some busy)) c

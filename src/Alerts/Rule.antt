-- ===== src/Alerts/Rule.antt =====
-- `RuleDialog` of the alerts page: the form of a rule, its check and what is saved.
pub mod RoundTrip
pub mod View
use scrapydweb.Base.{
  ℕ, zero, suc, ltb, Bool, true, false, not, Option, none, some, or_else, List, [], ◌∷◌, ◌++◌, map,
  Text, text, truthy, same, Obj, get, put, includes_text, filter, if◌then◌else◌,
}
use scrapydweb.Js.Decimal.{show}
use scrapydweb.Js.Json.{Json}
use scrapydweb.Js.Strings.{trim}
use scrapydweb.Api.Types.{AlertRule, AlertThresholdSpec, ThresholdAction, alert, stop, forcestop}

abbrev pub kinds : List Text
kinds =
    text "CRITICAL"
    ∷ text "ERROR"
    ∷ text "WARNING"
    ∷ text "REDIRECT"
    ∷ text "RETRY"
    ∷ text "IGNORE"
    ∷ []

abbrev pub channels : List Text
channels = text "slack" ∷ text "telegram" ∷ text "email" ∷ []

pub record ThresholdRow : Type 0 where
  pub threshold : Text
  pub action : ThresholdAction

pub data Finished : Type 0 where
  inherit on off : Finished

-- the states of the dialog that the rule is made of
pub record RuleForm : Type 0 where
  pub name : Text
  pub project_pattern : Text
  pub spider_pattern : Text
  pub thresholds : Obj ThresholdRow
  pub on_finished : Finished
  pub interval : Text
  pub override : Bool
  pub channels : List Text

unfoldable pub row_of : Option AlertThresholdSpec → ThresholdRow
row_of none = record { threshold = []; action = alert }
row_of (some spec) = record { threshold = show spec.threshold; action = or_else spec.action alert }

unfoldable pub rows_of : List Text → Obj AlertThresholdSpec → Obj ThresholdRow
unfolding row_of get
rows_of ks th = map (λ k. (k, row_of (get k th))) ks

abbrev pub finished_of : Option Bool → Finished
finished_of none = inherit
finished_of (some true) = on
finished_of (some false) = off

abbrev pub shown : Option ℕ → Text
shown none = []
shown (some n) = show n

abbrev pub is_set : Option (List Text) → Bool
is_set none = false
is_set (some c) = true

abbrev pub texts_or : Option (List Text) → List Text
texts_or none = []
texts_or (some c) = c

unfoldable pub new_rule : RuleForm
unfolding rows_of
new_rule = record {
  name = [];
  project_pattern = text "*";
  spider_pattern = text "*";
  thresholds = rows_of kinds [];
  on_finished = inherit;
  interval = [];
  override = false;
  channels = [];
}

unfoldable pub open_rule : AlertRule → RuleForm
unfolding rows_of
open_rule r = record {
  name = r.name;
  project_pattern = r.project_pattern;
  spider_pattern = r.spider_pattern;
  thresholds = rows_of kinds r.thresholds;
  on_finished = finished_of r.on_finished;
  interval = shown r.on_running_interval;
  override = is_set r.channels;
  channels = texts_or r.channels;
}

-- What a threshold or an action that is typed for a kind changes.
abbrev pub row_or : Option ThresholdRow → ThresholdRow
row_or none = record { threshold = []; action = alert }
row_or (some r) = r

unfoldable pub set_threshold : Text → Text → RuleForm → RuleForm
unfolding get put
set_threshold k s f = record f {
  thresholds = put k (record (row_or (get k f.thresholds)) { threshold = s }) f.thresholds;
}

unfoldable pub set_action : Text → ThresholdAction → RuleForm → RuleForm
unfolding get put
set_action k a f = record f {
  thresholds = put k (record (row_or (get k f.thresholds)) { action = a }) f.thresholds;
}

unfoldable pub toggle_channel : Text → RuleForm → RuleForm
unfolding includes_text filter
toggle_channel c f = record f {
  channels =
      if includes_text f.channels c
      then filter (λ x. not (same x c)) f.channels
      else f.channels ++ c ∷ [];
}

-- `Number(s)`: an integer from 0 on, or another number or NaN with the JSON that it becomes
pub data Number : Type 0 where
  whole : ℕ → Number
  other : Json → Number

-- the body of the request
pub record RuleBody : Type 0 where
  pub name : Text
  pub project_pattern : Text
  pub spider_pattern : Text
  pub thresholds : Obj AlertThresholdSpec
  pub on_finished : Option Bool
  pub on_running_interval : Option Number
  pub channels : Option (List Text)

-- The thresholds of the body, or the first kind whose threshold is no integer from 0 on.
pub data Collected : Type 0 where
  good : Obj AlertThresholdSpec → Collected
  bad : (kind : Text) → Collected

-- What `save` sends, or the error that it shows instead.
pub data Saving : Type 0 where
  send : RuleBody → Saving
  reject : (message : Text) → Saving

abbrev pub with_spec : Text → AlertThresholdSpec → Collected → Collected
with_spec k spec (good th) = good ((k, spec) ∷ th)
with_spec k spec (bad kind) = bad kind

-- `row.action === "alert" ? null : row.action`
abbrev pub null_alert : ThresholdAction → Option ThresholdAction
null_alert alert = none
null_alert a = some a

abbrev pub finished_body : Finished → Option Bool
finished_body inherit = none
finished_body on = some true
finished_body off = some false

unfoldable pub is_blank : Text → Bool
unfolding trim
is_blank s = not (truthy (trim s))

module _ (number : Text → Number) where
  -- one turn of the loop: skip, keep or stop
  abbrev pub collect_row : Text → ThresholdRow → Number → Collected → Collected
  collect_row k row (other v) later = bad k
  collect_row k row (whole zero) later = later
  collect_row k row (whole (suc n)) later =
      with_spec k (record { threshold = suc n; action = null_alert row.action }) later

  unfoldable pub collect : List Text → Obj ThresholdRow → Collected
  unfolding is_blank get
  collect [] rows = good []
  collect (k ∷ ks) rows =
      let later = collect ks rows in
      let row = row_or (get k rows) in
      if is_blank row.threshold then later else collect_row k row (number row.threshold) later

  unfoldable pub rule_body : RuleForm → Obj AlertThresholdSpec → RuleBody
  unfolding is_blank
  rule_body f th = record {
    name = f.name;
    project_pattern = f.project_pattern;
    spider_pattern = f.spider_pattern;
    thresholds = th;
    on_finished = finished_body f.on_finished;
    on_running_interval = if is_blank f.interval then none else some (number f.interval);
    channels = if f.override then some f.channels else none;
  }

  abbrev pub outcome : RuleForm → Collected → Saving
  outcome f (good th) = send (rule_body f th)
  outcome f (bad k) = reject (k ++ text " threshold must be an integer ≥ 0")

  unfoldable pub save : RuleForm → Saving
  unfolding collect rule_body
  save f = outcome f (collect kinds f.thresholds)

-- ===== src/Alerts/Banner.antt =====
-- `WorkingTimeBanner` of the alerts page, and the marks of a rule's thresholds.
use scrapydweb.Base.{
  Bool, true, false, not, ◌&&◌, ◌||◌, Option, none, some, List, [], ◌∷◌, ◌++◌, Text, text, Obj, get,
  any, if◌then◌else◌,
}
use scrapydweb.Js.Decimal.{show}
use scrapydweb.Api.Types.{AlertThresholdSpec, ThresholdAction, stop, forcestop}
use scrapydweb.Settings.Draft.{Value, bool, numbers}

-- `val(key) === true`
abbrev pub is_on : Option Value → Bool
is_on (some (bool b)) = b
is_on _ = false

-- `(val(key) as number[] | undefined) ?? []`
abbrev pub items_of : Option Value → List Text
items_of (some (numbers ns)) = ns
items_of _ = []

abbrev is_nil : List Text → Bool
is_nil [] = true
is_nil (_ ∷ _) = false

pub data Banner : Type 0 where
  hidden no_days no_hours : Banner

unfoldable pub channel_on : Obj Value → Bool
unfolding any get
channel_on fields =
    any (λ k. is_on (get k fields))
      (text "ENABLE_SLACK_ALERT" ∷ text "ENABLE_TELEGRAM_ALERT" ∷ text "ENABLE_EMAIL_ALERT" ∷ [])

unfoldable pub banner_of : Bool → List Text → List Text → Banner
banner_of on days hours =
    if not on || (not (is_nil days) && not (is_nil hours))
    then hidden
    else if is_nil days
    then no_days
    else no_hours

-- for the fields of the group "monitor", when there is one
unfoldable pub banner : Option (Obj Value) → Banner
unfolding channel_on banner_of get
banner none = hidden
banner (some fields) =
    banner_of (channel_on fields) (items_of (get (text "ALERT_WORKING_DAYS") fields))
      (items_of (get (text "ALERT_WORKING_HOURS") fields))

abbrev mark : Option ThresholdAction → Text
mark (some stop) = text " ■"
mark (some forcestop) = text " ■■"
mark _ = []

-- the badge of a threshold
unfoldable pub threshold_badge : Text → AlertThresholdSpec → Text
threshold_badge kind spec = kind ++ (text " ≥ " ++ (show spec.threshold ++ mark spec.action))

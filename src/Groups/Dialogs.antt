-- ===== src/Groups/Dialogs.antt =====
-- The dialogs of the groups page: the rows of arguments, firing a group now and scheduling it.
use scrapydweb.Base.{ℕ, ltb, List, [], ◌∷◌, ◌++◌, Text, text, if◌then◌else◌, map_at, remove_at}
use scrapydweb.Js.Decimal.{show}
use scrapydweb.Js.Json.{Json}
use scrapydweb.Js.Json
use scrapydweb.Api.Calls.{Call, fire_group, schedule_saved_group}
use scrapydweb.Payload.{Row}
use scrapydweb.Payload.Form.{args_object}
use scrapydweb.Groups.Page.{entries}

unfoldable pub set_key : ℕ → Text → List Row → List Row
set_key i s rows = map_at i (λ r. record r { key = s }) rows

unfoldable pub set_row_value : ℕ → Text → List Row → List Row
set_row_value i s rows = map_at i (λ r. record r { value = s }) rows

unfoldable pub remove_row : ℕ → List Row → List Row
remove_row i rows = remove_at i rows

unfoldable pub add_row : List Row → List Row
add_row rows = rows ++ record { key = []; value = [] } ∷ []

-- the body of a run with arguments
unfoldable pub fire_call : ℕ → List Row → Call
fire_call id rows =
    fire_group id
      (Json.obj (Json.field (text "args") (Json.obj (entries (args_object rows))) Json.end))

pub record Cron : Type 0 where
  pub minute : Text
  pub hour : Text
  pub day : Text
  pub month : Text
  pub day_of_week : Text

-- the body of the timer tasks, in the order of its keys
unfoldable pub schedule_call : ℕ → Cron → Text → List Row → Call
schedule_call id c action rows = schedule_saved_group id (
    Json.obj (
      Json.field (text "minute") (Json.str c.minute) (
        Json.field (text "hour") (Json.str c.hour) (
          Json.field (text "day") (Json.str c.day) (
            Json.field (text "month") (Json.str c.month) (
              Json.field (text "day_of_week") (Json.str c.day_of_week) (
                Json.field (text "year") (Json.str (text "*")) (
                  Json.field (text "week") (Json.str (text "*")) (
                    Json.field (text "second") (Json.str (text "0")) (
                      Json.field (text "action") (Json.str action) (
                        Json.field (text "args") (Json.obj (entries (args_object rows)))
                          Json.end)))))))))))

-- What the dialog and the "Fire now" button say of a reply.
unfoldable pub fire_text : ℕ → ℕ → Text
fire_text scheduled total =
    if ltb 0 scheduled
    then text "Fired " ++ (show scheduled ++ (text "/" ++ (show total ++ text " job(s)")))
    else text "Nothing fired"

unfoldable pub schedule_text : ℕ → Text
schedule_text scheduled =
    if ltb 0 scheduled
    then text "Created " ++ (show scheduled ++ text " timer task(s)")
    else text "Nothing scheduled"

-- ===== src/Examples/Requests.antt =====
-- The API, and what the pages share.
use scrapydweb.Base.{ℕ, ◌≡◌, ◌↔◌, refl, true, false, [], ◌∷◌, Option, some, Text, text, ◌+◌, ◌*◌}
use scrapydweb.Js.Decimal.{show, show_digits, read}
use scrapydweb.Js.Strings.{split, has_unit}
use scrapydweb.Js.Uri.{
  encode_uri, encode_unit, encode_pair, is_unreserved, is_alnum, is_high, is_low, percent,
  hex_upper,
}
use scrapydweb.Api.Helpers.{
  get_json, put_json, answer, value, to_login, settle, is_ok, put_json_lets, IsAccepted, IsExpired,
  follows_session, settle-value, settle-to_login,
}
use scrapydweb.Api.Calls.{log_url}
use scrapydweb.Api.Segments.{split-log_url}
use scrapydweb.Shared.Confirm.{ConfirmState, answer_of, happen, asked, closed, answer-clicked}
use scrapydweb.Jobs.Runtime.{parse_runtime, timedelta, parse_runtime-timedelta}

abbrev settings_url : Text
settings_url = text "/api/settings"

bad_request :
    settle put_json (text "/settings") settings_url (answer 400 (some (text "{}")))
    ≡ value (text "{}")
unfolding settle is_ok put_json_lets
bad_request = refl

settle-value_example : (some (text "{}") ≡ some (text "{}")) × IsAccepted 400
settle-value_example =
    settle-value put_json (text "/settings") settings_url 400 (some (text "{}")) (text "{}")
      bad_request

settle-to_login_example :
    (settle get_json (text "/jobs") (text "/api/nodes") (answer 401 (some (text "{}"))) ≡ to_login)
    ↔ ((follows_session get_json ≡ true) × IsExpired 401 (text "/api/nodes") (text "/jobs"))
settle-to_login_example =
    settle-to_login get_json (text "/jobs") (text "/api/nodes") 401 (some (text "{}"))

no_slash : has_unit b'/' (text "utf8") ≡ false
unfolding has_unit
no_slash = refl

project_encoded : encode_uri (text "a/b") ≡ some (text "a%2Fb")
unfolding encode_uri encode_unit encode_pair is_unreserved is_alnum is_high is_low percent hex_upper
project_encoded = refl

spider_encoded : encode_uri (text "s") ≡ some (text "s")
unfolding encode_uri encode_unit encode_pair is_unreserved is_alnum is_high is_low
spider_encoded = refl

url_built :
    log_url (text "utf8") 1 (text "a/b") (text "s") (text "s") true
    ≡ some (text "/api/1/log/utf8/a%2Fb/s/s/?job_finished=True")
unfolding log_url show show_digits
url_built = rw (project_encoded, spider_encoded) refl

split-log_url_example :
    split b'/' (text "/api/1/log/utf8/a%2Fb/s/s/?job_finished=True")
    ≡ []
      ∷ text "api"
      ∷ show 1
      ∷ text "log"
      ∷ text "utf8"
      ∷ text "a%2Fb"
      ∷ text "s"
      ∷ text "s"
      ∷ text "?job_finished=True"
      ∷ []
split-log_url_example =
    split-log_url (text "utf8") (text "a/b") (text "s") (text "s") 1 true no_slash project_encoded
      spider_encoded spider_encoded url_built

abbrev number : Text → Option ℕ
number s = some (read 0 s)

parse_runtime-timedelta_example :
    parse_runtime number (timedelta 2 3 4 5) ≡ some (2 * 86400 + 3 * 3600 + 4 * 60 + 5)
parse_runtime-timedelta_example = parse_runtime-timedelta number (λ s h k. refl) 2 3 4 5

abbrev one_question : ConfirmState
one_question = record { shown = some 1; answers = [] }

answer-clicked_example :
    answer_of 1
      (happen
        (closed (some 1) true ∷ closed (some 1) false ∷ asked 2 ∷ closed (some 2) false ∷ [])
        one_question).answers
    ≡ some true
answer-clicked_example =
    answer-clicked 1 true (asked 2 ∷ closed (some 2) false ∷ []) one_question
      (unfold answer_of in refl)

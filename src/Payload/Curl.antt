-- ===== src/Payload/Curl.antt =====
-- `backendGroupCurl` and `buildCurlPreview`: the shell commands shown for a run.
use scrapydweb.Base.{
  ℕ, ◌≡◌, Bool, true, false, not, ◌&&◌, ◌||◌, List, [], ◌∷◌, ◌++◌, map, Text, text, truthy, or_text,
  filter, any, same, some, ltb, ◌==◌, if◌then◌else◌, ◌↔◌,
}
use scrapydweb.Js.Decimal.{show}
use scrapydweb.Js.Json.{Json, pretty}
use scrapydweb.Js.Strings.{has_unit, is_space, join}
use scrapydweb.Payload.{Row, ScheduleForm, latest}
use scrapydweb.Payload.Form.{is_filled}
use scrapydweb.Payload.Sanitize.{sanitize_jobid}
use scrapydweb.Payload.Shell.{shell_quote, shell_word, shell_word-bare_quotes}

-- the body between single quotes, as the last line of the command has it
unfoldable pub body_word : Json → Text
body_word body = 39 ∷ (pretty body 0 ++ 39 ∷ [])

unfoldable pub backend_group_curl : ℕ → Json → Text → Text
backend_group_curl node body origin = join (text "\n") (
    (text "curl -X POST '" ++ (origin ++ (text "/" ++ (show node ++ text "/schedule/group/' \\"))))
    ∷ text "  -H 'Authorization: Bearer sdw_…' \\"
    ∷ text "  -H 'Content-Type: application/json' \\"
    ∷ (text "  -d " ++ body_word body)
    ∷ [])

-- Order of texts by code units, as `Array.prototype.sort` has it.
unfoldable pub text_le : Text → Text → Bool
text_le [] t = true
text_le (a ∷ s) [] = false
text_le (a ∷ s) (b ∷ t) = ltb a b || ((a == b) && text_le s t)

unfoldable pub insert_text : Text → List Text → List Text
insert_text s [] = s ∷ []
insert_text s (t ∷ ts) = let rest = insert_text s ts in if text_le s t then s ∷ t ∷ ts else t ∷ rest

unfoldable pub sort : List Text → List Text
sort [] = []
sort (s ∷ ts) = insert_text s (sort ts)

-- `/[\s"']/.test(kv)`
unfoldable pub needs_encoding : Text → Bool
needs_encoding = any (λ c. is_space c || (c == 34) || (c == 39))

-- `push(kv)`
unfoldable pub push_part : Text → Text
push_part kv =
    (if needs_encoding kv then text "--data-urlencode" else text "-d")
    ++ (text " " ++ shell_quote kv)

unfoldable pub key_value : Row → Text
key_value r = r.key ++ (text "=" ++ r.value)

unfoldable pub sorted_settings : List Row → List Text
sorted_settings rows = sort (map key_value (filter is_filled rows))

-- The values that `push` is called with, in order.
unfoldable pub preview_values : ScheduleForm → List Text
preview_values v =
    (text "project=" ++ or_text v.project (text "?"))
    ∷ ((if truthy v.version && not (same v.version latest)
          then (text "_version=" ++ v.version) ∷ []
          else [])
        ++ ((text "spider=" ++ or_text v.spider (text "?"))
            ∷ (text "jobid="
                ++ (if truthy v.jobid then sanitize_jobid v.jobid else text "<auto: timestamp>"))
            ∷ (map (λ s. text "setting=" ++ s) (sorted_settings v.settings)
                ++ map key_value (filter is_filled v.args))))

unfoldable pub build_curl_preview : ScheduleForm → Text → Text
build_curl_preview v server =
    join (text " \\\n  ") (
      (text "curl http://" ++ (server ++ text "/schedule.json")) ∷ map push_part (preview_values v))

-- The shell hands curl the JSON body of the shown command exactly when the body has no single quote.
pub body_word-exact :
    (body : Json)
    → (shell_word (body_word body) ≡ some (pretty body 0)) ↔ (has_unit 39 (pretty body 0) ≡ false)
unfolding body_word
body_word-exact body = shell_word-bare_quotes (pretty body 0)

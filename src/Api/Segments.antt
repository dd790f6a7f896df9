-- ===== src/Api/Segments.antt =====
-- What a server reads out of the URLs: the path's segments, and that a call stays on its origin.
use scrapydweb.Base.{
  ℕ, ◌≡◌, refl, ap, sym, ◌∙◌, Bool, true, false, some, some-inj, [], ◌∷◌, ◌++◌, Text, text,
  if◌then◌else◌,
}
use scrapydweb.Js.Decimal.{is_digit, show, show-digits}
use scrapydweb.Js.Strings.{has_unit, split, split-append, split-free, All-free}
use scrapydweb.Js.Uri.{encode_uri, is_safe, is_unreserved, encode_uri-free}
use scrapydweb.Api.Calls.{log_url}

show-free : (n : ℕ) → has_unit b'/' (show n) ≡ false
show-free n = All-free is_digit b'/' (show n) (unfold is_digit in refl) (show-digits n)

component-free : (s t : Text) → encode_uri s ≡ some t → has_unit b'/' t ≡ false
component-free s t e = encode_uri-free b'/' s t (unfold is_safe is_unreserved in refl) e

-- what stands behind "/api/" in a log's URL
log_path : Text → Text → Text → Text → Text → Text → Text
log_path n opt p s j tail =
    n
    ++ (text "/log/"
        ++ (opt
            ++ (text "/" ++ (p ++ (text "/" ++ (s ++ (text "/" ++ (j ++ (text "/" ++ tail)))))))))

split-log_path :
    (n opt p s j tail : Text)
    → has_unit b'/' n ≡ false
    → has_unit b'/' opt ≡ false
    → has_unit b'/' p ≡ false
    → has_unit b'/' s ≡ false
    → has_unit b'/' j ≡ false
    → has_unit b'/' tail ≡ false
    → split b'/' (text "/api/" ++ log_path n opt p s j tail)
      ≡ [] ∷ text "api" ∷ n ∷ text "log" ∷ opt ∷ p ∷ s ∷ j ∷ tail ∷ []
unfolding log_path
split-log_path n opt p s j tail hn ho hp hs hj ht =
    unfold split in
    rw (
      split-append b'/' n _ hn,
      split-append b'/' opt _ ho,
      split-append b'/' p _ hp,
      split-append b'/' s _ hs,
      split-append b'/' j _ hj,
      split-free b'/' tail ht,
    )

tail-free :
    (finished : Bool) → has_unit b'/' (if finished then text "?job_finished=True" else []) ≡ false
unfolding has_unit
tail-free true = refl
tail-free false = refl

-- The URL of a log, split at its slashes, has the node, the view and the three encoded names as its
-- segments, whatever the names hold.
pub split-log_url :
    (opt project spider job : Text) (node : ℕ) (finished : Bool) {p s j url : Text}
    → has_unit b'/' opt ≡ false
    → encode_uri project ≡ some p
    → encode_uri spider ≡ some s
    → encode_uri job ≡ some j
    → log_url opt node project spider job finished ≡ some url
    → split b'/' url
      ≡ []
        ∷ text "api"
        ∷ show node
        ∷ text "log"
        ∷ opt
        ∷ p
        ∷ s
        ∷ j
        ∷ (if finished then text "?job_finished=True" else [])
        ∷ []
unfolding log_url
split-log_url opt project spider job node finished {p} {s} {j} {url} ho ep es ej e =
    ap (split b'/') (sym (some-inj (rw (ep, es, ej) at e)))
    ∙ unfold log_path in
      split-log_path (show node) opt p s j (if finished then text "?job_finished=True" else [])
        (show-free node) ho (component-free project p ep) (component-free spider s es)
        (component-free job j ej) (tail-free finished)

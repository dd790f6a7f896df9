-- ===== src/Js/Query.antt =====
-- `URLSearchParams`: reading, setting and deleting a parameter, and the printed query.
use scrapydweb.Base.{
  ℕ, ◌+◌, ◌/◌, ◌%◌, ◌≡◌, refl, Bool, ◌&&◌, ◌||◌, [], ◌∷◌, ◌++◌, map, Text, text, Obj, ltb, ◌==◌,
  if◌then◌else◌,
}
use scrapydweb.Js.Strings.{join}
use scrapydweb.Js.Uri.{is_alnum, is_high, is_low, percent, encode_pair}

-- A-Z a-z 0-9 * - . _
unfoldable pub is_form_plain : ℕ → Bool
unfolding is_alnum
is_form_plain c = is_alnum c || (c == 42) || (c == 45) || (c == 46) || (c == 95)

unfoldable pub form_unit : ℕ → Text
unfolding is_form_plain percent
form_unit c =
    if is_form_plain c
    then c ∷ []
    else if c == 32
    then 43 ∷ []
    else if ltb c 128
    then percent c
    else if ltb c 2048
    then percent (192 + c / 64) ++ percent (128 + c % 64)
    else percent (224 + c / 4096) ++ (percent (128 + c / 64 % 64) ++ percent (128 + c % 64))

-- a lone surrogate is printed as U+FFFD
unfoldable pub form_encode : Text → Text
unfolding form_unit is_high is_low encode_pair
form_encode [] = []
form_encode (c ∷ []) = if is_high c || is_low c then form_unit 65533 else form_unit c
form_encode (c ∷ d ∷ s) =
    let pair = encode_pair c d ++ form_encode s in
    let one = form_unit c ++ form_encode (d ∷ s) in
    let lone = form_unit 65533 ++ form_encode (d ∷ s) in
    if is_high c && is_low d then pair else if is_high c || is_low c then lone else one

-- `qs.toString()`
unfoldable pub to_query : Obj Text → Text
unfolding form_encode
to_query ps = join (text "&") (map (λ p. form_encode p.0 ++ (text "=" ++ form_encode p.1)) ps)

query_test :
    to_query ((text "page", text "2") ∷ (text "project", text "a b&c") ∷ [])
    ≡ text "page=2&project=a+b%26c"
unfolding to_query join
query_test = refl

-- ===== src/Shared/Dates.antt =====
-- `parseServerDate` and `fmtDateTime` of frontend/src/lib/datetime.ts.
use mathlib.Core.List.{reverse}
use mathlib.Core.Path.{subst}
use scrapydweb.Base.{
  ◌≡◌, Bool, true, false, not, ◌&&◌, ◌||◌, [], ◌∷◌, ◌++◌, Option, none, some, some-inj, Text, text,
  truthy, or_text, if◌then◌else◌, ◌==◌, Bool-cases, inl, inr, arith,
}
use scrapydweb.Js.Decimal.{is_digit}
use scrapydweb.Js.Strings.{has_unit, has_unit-append, trim}

-- `[+-]\d{2}` at the front of a reversed text
unfoldable pub two_digits_sign : Text → Bool
two_digits_sign (a ∷ b ∷ c ∷ s) = is_digit a && is_digit b && ((c == b'+') || (c == b'-'))
two_digits_sign _ = false

-- `[+-]\d{2}:?\d{2}$`, read from the end
unfoldable pub ends_offset : Text → Bool
ends_offset (a ∷ b ∷ c ∷ s) =
    is_digit a && is_digit b && (if c == b':' then two_digits_sign s else two_digits_sign (c ∷ s))
ends_offset _ = false

-- `HAS_TZ.test(t)`: the first alternative, `[zZ]`, is not anchored
unfoldable pub has_tz : Text → Bool
has_tz t = has_unit b'z' t || has_unit b'Z' t || ends_offset (reverse t)

-- `t.replace(" ", "T")`: the first space only
unfoldable pub replace_space : Text → Text
replace_space [] = []
replace_space (c ∷ s) = let rest = replace_space s in if c == 32 then b'T' ∷ s else c ∷ rest

unfoldable pub add_t : Text → Text
add_t t = if has_unit 32 t && not (has_unit b'T' t) then replace_space t else t

unfoldable pub add_zone : Text → Text
add_zone t = if has_tz t then t else t ++ text "Z"

-- The text that `new Date` is given, if any.
unfoldable pub iso_text : Option Text → Option Text
iso_text none = none
iso_text (some s) =
    let t = trim s in if truthy s && truthy t then some (add_zone (add_t t)) else none

-- `new Date(t)`, `none` when its time is NaN, and `toLocaleString` are the browser's.
module _ {Date : Type 0} (new_date : Text → Option Date) (to_locale : Date → Text) where
  unfoldable pub parse_server_date : Option Text → Option Date
  parse_server_date s = elim (iso_text s) [ none ↦ none | some t ↦ new_date t ]

  -- `s || fallback`
  abbrev pub or_fallback : Option Text → Text → Text
  or_fallback none fallback = fallback
  or_fallback (some s) fallback = or_text s fallback

  unfoldable pub fmt_date_time : Option Text → Text → Text
  fmt_date_time s fallback = elim (parse_server_date s) [
    | none ↦ or_fallback s fallback
    | some d ↦ to_locale d
  ]

zoned : (t : Text) → has_tz (add_zone t) ≡ true
unfolding add_zone
zoned t = elim (Bool-cases (has_tz t)) [
  | inl e ↦ rw (e, e)
  | inr e ↦ rw e (
      unfold has_tz in
      rw (has_unit-append b'z' t (text "Z"), has_unit-append b'Z' t (text "Z"))
        (unfold has_unit in ground arith))
]

-- Whatever is handed to the browser's date parser names its time zone.
has_tz-iso_text : (s : Option Text) (t : Text) → iso_text s ≡ some t → has_tz t ≡ true
unfolding iso_text
has_tz-iso_text none t e = cc
has_tz-iso_text (some s) t e = go (truthy s && truthy (trim s)) e
  where
    go :
        (b : Bool)
        → (if b then some (add_zone (add_t (trim s))) else none) ≡ some t
        → has_tz t ≡ true
    go true e = subst (λ u. has_tz u ≡ true) (some-inj e) (zoned (add_t (trim s)))
    go false e = cc

-- ===== src/Js/Uri.antt =====
-- `encodeURIComponent`: UTF-8 with percent escapes. `none` is the `URIError` of a lone surrogate.
use mathlib.Core.Path.{subst}
use scrapydweb.Base.{
  ℕ, ◌+◌, ◌-◌, ◌*◌, ◌/◌, ◌%◌, ◌<◌, ◌≡◌, refl, Bool, true, false, ◌&&◌, ◌||◌, [], ◌∷◌, ◌++◌, Option,
  none, some, some-inj, Text, text, arith, All, leb, ltb, ◌==◌, if◌then◌else◌, Bool-cases, inl, inr,
}
use scrapydweb.Js.Strings.{has_unit, All-free}

unfoldable pub is_alnum : ℕ → Bool
is_alnum c = (leb b'0' c && leb c b'9') || (leb b'A' c && leb c b'Z') || (leb b'a' c && leb c b'z')

-- A-Z a-z 0-9 - _ . ! ~ * ' ( )
unfoldable pub is_unreserved : ℕ → Bool
unfolding is_alnum
is_unreserved c =
    is_alnum c
    || (c == 45)
    || (c == 95)
    || (c == 46)
    || (c == 33)
    || (c == 126)
    || (c == 42)
    || (c == 39)
    || (c == 40)
    || (c == 41)

unfoldable pub is_high : ℕ → Bool
is_high c = leb 55296 c && ltb c 56320

unfoldable pub is_low : ℕ → Bool
is_low c = leb 56320 c && ltb c 57344

unfoldable pub hex_upper : ℕ → ℕ
hex_upper d = if ltb d 10 then b'0' + d else 55 + d

-- `%XX`
unfoldable pub percent : ℕ → Text
unfolding hex_upper
percent b = 37 ∷ hex_upper (b / 16 % 16) ∷ hex_upper (b % 16) ∷ []

unfoldable pub encode_unit : ℕ → Text
encode_unit c =
    if is_unreserved c
    then c ∷ []
    else if ltb c 128
    then percent c
    else if ltb c 2048
    then percent (192 + c / 64) ++ percent (128 + c % 64)
    else percent (224 + c / 4096) ++ (percent (128 + c / 64 % 64) ++ percent (128 + c % 64))

-- the code point of a surrogate pair, in four bytes
unfoldable pub encode_pair : ℕ → ℕ → Text
encode_pair h l =
    let cp = 65536 + (h - 55296) * 1024 + (l - 56320) in
    percent (240 + cp / 262144)
    ++ (percent (128 + cp / 4096 % 64) ++ (percent (128 + cp / 64 % 64) ++ percent (128 + cp % 64)))

abbrev prefix : Text → Option Text → Option Text
prefix p none = none
prefix p (some t) = some (p ++ t)

unfoldable pub encode_uri : Text → Option Text
encode_uri [] = some []
encode_uri (c ∷ []) = if is_high c || is_low c then none else some (encode_unit c)
encode_uri (c ∷ d ∷ s) =
    let pair = prefix (encode_pair c d) (encode_uri s) in
    let one = prefix (encode_unit c) (encode_uri (d ∷ s)) in
    if is_high c then (if is_low d then pair else none) else if is_low c then none else one

-- what an encoded component is made of
unfoldable pub is_safe : ℕ → Bool
is_safe c = is_unreserved c || (c == 37)

abbrev pub Safe : Text → Type 0
Safe = All (λ c. is_safe c ≡ true)

Safe-append : (s t : Text) → Safe s → Safe t → Safe (s ++ t)
Safe-append [] t hs ht = ht
Safe-append (c ∷ s) t hs ht = (hs.0, Safe-append s t hs.1 ht)

hex_upper-safe : (d : ℕ) → d < 16 → is_safe (hex_upper d) ≡ true
unfolding is_safe is_unreserved hex_upper
hex_upper-safe d h = ground arith

percent-Safe : (b : ℕ) → Safe (percent b)
unfolding percent
percent-Safe b = (
  unfold is_safe is_unreserved in refl,
  (hex_upper-safe (b / 16 % 16) (omega arith), (hex_upper-safe (b % 16) (omega arith), tt)),
)

encode_unit-Safe : (c : ℕ) → Safe (encode_unit c)
unfolding encode_unit
encode_unit-Safe c = elim (Bool-cases (is_unreserved c)) [
  | inl e ↦ rw e (unfold is_safe in ground arith, tt)
  | inr e ↦ rw e (elim (Bool-cases (ltb c 128)) [
    | inl a ↦ rw a (percent-Safe c)
    | inr a ↦ rw a (elim (Bool-cases (ltb c 2048)) [
      | inl b ↦ rw b (Safe-append _ _ (percent-Safe _) (percent-Safe _))
      | inr b ↦
          rw b
            (Safe-append _ _ (percent-Safe _) (Safe-append _ _ (percent-Safe _) (percent-Safe _)))
    ])
  ])
]

encode_pair-Safe : (h l : ℕ) → Safe (encode_pair h l)
unfolding encode_pair
encode_pair-Safe h l =
    Safe-append _ _ (percent-Safe _)
      (Safe-append _ _ (percent-Safe _) (Safe-append _ _ (percent-Safe _) (percent-Safe _)))

prefix-Safe :
    (p : Text) (o : Option Text) (t : Text)
    → Safe p
    → ((u : Text) → o ≡ some u → Safe u)
    → prefix p o ≡ some t
    → Safe t
prefix-Safe p none t hp ho e = cc
prefix-Safe p (some u) t hp ho e = subst Safe (some-inj e) (Safe-append p u hp (ho u refl))

-- A component that is encoded at all is encoded into unreserved units and `%`.
pub encode_uri-Safe : (s t : Text) → encode_uri s ≡ some t → Safe t
unfolding encode_uri
encode_uri-Safe [] t e = subst Safe (some-inj e) tt
encode_uri-Safe (c ∷ []) t e = elim (Bool-cases (is_high c || is_low c)) [
  | inl b ↦ cc (rw b at e)
  | inr b ↦ subst Safe (some-inj (rw b at e)) (encode_unit-Safe c)
]
encode_uri-Safe (c ∷ d ∷ s) t e =
    two (is_high c) (is_low d) (is_low c) e
      (λ h.
        prefix-Safe (encode_pair c d) (encode_uri s) t (encode_pair-Safe c d)
          (λ u. encode_uri-Safe s u) h)
      (λ h.
        prefix-Safe (encode_unit c) (encode_uri (d ∷ s)) t (encode_unit-Safe c)
          (λ u. encode_uri-Safe (d ∷ s) u) h)
  where
    two :
        (a b k : Bool) {x y : Option Text}
        → (if a then (if b then x else none) else if k then none else y) ≡ some t
        → (x ≡ some t → Safe t)
        → (y ≡ some t → Safe t)
        → Safe t
    two true true k h f g = f h
    two true false k h f g = cc
    two false b true h f g = cc
    two false b false h f g = g h

-- So it has none of the units that a path or a query is read by.
pub encode_uri-free :
    (c : ℕ) (s t : Text) → is_safe c ≡ false → encode_uri s ≡ some t → has_unit c t ≡ false
encode_uri-free c s t h e = All-free is_safe c t h (encode_uri-Safe s t e)

encode_test : encode_uri (text "a/b é") ≡ some (text "a%2Fb%20%C3%A9")
unfolding encode_uri is_high is_low encode_unit is_unreserved percent
encode_test = refl

-- ===== src/Js/Trim.antt =====
-- When `trim` leaves something.
use scrapydweb.Base.{
  ℕ, ◌≡◌, refl, ◌∙◌, Bool, true, false, not, ◌||◌, [], ◌∷◌, ◌++◌, Text, truthy, any, any-append,
  All, Bool-cases, inl, inr, arith,
}
use mathlib.Core.List.{reverse, reverse-cons}
use scrapydweb.Js.Decimal.{is_digit, show, show-digits, truthy-show}
use scrapydweb.Js.Strings.{is_space, drop_space, trim}

abbrev is_ink : ℕ → Bool
is_ink c = not (is_space c)

any-reverse : (p : ℕ → Bool) (s : Text) → any p (reverse s) ≡ any p s
unfolding any
any-reverse p [] = refl
any-reverse p (c ∷ s) =
    rw (reverse-cons c s, any-append p (reverse s) (c ∷ []), any-reverse p s) ground arith

ink-or : (c : ℕ) (b : Bool) → is_space c ≡ false → (is_ink c || b) ≡ true
ink-or c b e = rw e refl

any-drop_space : (s : Text) → any is_ink (drop_space s) ≡ any is_ink s
unfolding any drop_space
any-drop_space [] = refl
any-drop_space (c ∷ s) = elim (Bool-cases (is_space c)) [
  | inl e ↦ rw e (any-drop_space s)
  | inr e ↦ rw e (ink-or c (any is_ink s) e)
]

truthy-drop_space : (s : Text) → truthy (drop_space s) ≡ any is_ink s
unfolding any drop_space
truthy-drop_space [] = refl
truthy-drop_space (c ∷ s) = elim (Bool-cases (is_space c)) [
  | inl e ↦ rw e (truthy-drop_space s)
  | inr e ↦ rw e refl
]

truthy-snoc : (s : Text) (c : ℕ) → truthy (s ++ c ∷ []) ≡ true
truthy-snoc [] c = refl
truthy-snoc (d ∷ s) c = refl

truthy-reverse : (s : Text) → truthy (reverse s) ≡ truthy s
truthy-reverse [] = refl
truthy-reverse (c ∷ s) = rw (reverse-cons c s) (truthy-snoc (reverse s) c)

-- A trimmed text is not empty exactly when the text has a unit that is no white space.
pub truthy-trim : (s : Text) → truthy (trim s) ≡ any (λ c. not (is_space c)) s
unfolding trim
truthy-trim s =
    truthy-reverse (drop_space (reverse (drop_space s)))
    ∙ truthy-drop_space (reverse (drop_space s))
    ∙ any-reverse is_ink (drop_space s)
    ∙ any-drop_space s

digit-ink : (c : ℕ) → is_digit c ≡ true → is_space c ≡ false
unfolding is_digit is_space
digit-ink c h = ground arith

any-digits : (s : Text) → truthy s ≡ true → All (λ c. is_digit c ≡ true) s → any is_ink s ≡ true
unfolding any
any-digits [] h k = cc
any-digits (c ∷ s) h k = rw (digit-ink c k.0) refl

-- A number in decimal is not blank.
pub truthy-trim-show : (n : ℕ) → truthy (trim (show n)) ≡ true
truthy-trim-show n = truthy-trim (show n) ∙ any-digits (show n) (truthy-show n) (show-digits n)

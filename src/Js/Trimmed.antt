-- ===== src/Js/Trimmed.antt =====
-- A trimmed text is trimmed already, and has no unit that the text has not.
use scrapydweb.Base.{
  ℕ, ◌==◌, ◌≡◌, refl, sym, ap, ◌∙◌, Bool, true, false, not, List, [], ◌∷◌, ◌++◌, Text, All,
  Bool-cases, inl, inr, arith,
}
use mathlib.Core.List.{reverse, reverse-cons, reverse-append, reverse-reverse}
use scrapydweb.Js.Strings.{is_space, drop_space, trim, has_unit, has_unit-append, split, push_front}

-- The text does not begin with white space.
abbrev is_clean : Text → Bool
is_clean [] = true
is_clean (c ∷ s) = not (is_space c)

is_clean-drop_space : (s : Text) → is_clean (drop_space s) ≡ true
unfolding drop_space
is_clean-drop_space [] = refl
is_clean-drop_space (c ∷ s) = elim (Bool-cases (is_space c)) [
  | inl e ↦ rw e (is_clean-drop_space s)
  | inr e ↦ rw e (rw e refl)
]

drop_space-clean : (s : Text) → is_clean s ≡ true → drop_space s ≡ s
unfolding drop_space
drop_space-clean [] h = refl
drop_space-clean (c ∷ s) h = elim (Bool-cases (is_space c)) [ inl e ↦ cc | inr e ↦ rw e refl ]

is_clean-prefix : (s t : Text) → is_clean (s ++ t) ≡ true → is_clean s ≡ true
is_clean-prefix [] t h = refl
is_clean-prefix (c ∷ s) t h = h

-- What is dropped stands in front.
dropped : (s : Text) → (p : Text) × (s ≡ p ++ drop_space s)
unfolding drop_space
dropped [] = ([], refl)
dropped (c ∷ s) = elim (Bool-cases (is_space c)) [
  | inl e ↦ let (p, q) = dropped s in (c ∷ p, rw e (ap (λ (t : Text). c ∷ t) q))
  | inr e ↦ ([], rw e refl)
]

-- A trimmed text is the front of the text without its leading white space.
trim-front : (s : Text) → (r : Text) × (drop_space s ≡ trim s ++ r)
unfolding trim
trim-front s =
    let (p, q) = dropped (reverse (drop_space s)) in
    (
      reverse p,
      sym (reverse-reverse (drop_space s))
          ∙ ap reverse q
          ∙ reverse-append p (drop_space (reverse (drop_space s))),
    )

is_clean-trim : (s : Text) → is_clean (trim s) ≡ true
is_clean-trim s =
    let (r, e) = trim-front s in
    is_clean-prefix (trim s) r (sym (ap is_clean e) ∙ is_clean-drop_space s)

back : (w : Text) → reverse (drop_space (reverse (reverse (drop_space w)))) ≡ reverse (drop_space w)
back w =
    rw (reverse-reverse (drop_space w))
      (ap reverse (drop_space-clean (drop_space w) (is_clean-drop_space w)))

trim-clean : (t : Text) → is_clean t ≡ true → trim t ≡ reverse (drop_space (reverse t))
unfolding trim
trim-clean t h = ap (λ (u : Text). reverse (drop_space (reverse u))) (drop_space-clean t h)

pub trim_twice : (s : Text) → trim (trim s) ≡ trim s
trim_twice s = trim-clean (trim s) (is_clean-trim s) ∙ unfold trim in back (reverse (drop_space s))

pub trim-blank : (s : Text) → trim (32 ∷ s) ≡ trim s
unfolding trim drop_space is_space
trim-blank s = refl

has_unit-reverse : (c : ℕ) (s : Text) → has_unit c (reverse s) ≡ has_unit c s
unfolding has_unit
has_unit-reverse c [] = refl
has_unit-reverse c (d ∷ s) =
    rw (reverse-cons d s, has_unit-append c (reverse s) (d ∷ []), has_unit-reverse c s) ground arith

front-free : (c : ℕ) (s t : Text) → has_unit c (s ++ t) ≡ false → has_unit c s ≡ false
front-free c s t h = ground (arith, h, has_unit-append c s t)

behind-free : (c : ℕ) (s t : Text) → has_unit c (s ++ t) ≡ false → has_unit c t ≡ false
behind-free c s t h = ground (arith, h, has_unit-append c s t)

pub trim-free : (c : ℕ) (s : Text) → has_unit c s ≡ false → has_unit c (trim s) ≡ false
trim-free c s h =
    let (p, e) = dropped s in
    let (r, f) = trim-front s in
    front-free c (trim s) r
      (sym (ap (has_unit c) f) ∙ behind-free c p (drop_space s) (sym (ap (has_unit c) e) ∙ h))

push-free :
    (c d : ℕ) (ps : List Text)
    → (d == c) ≡ false
    → All (λ p. has_unit c p ≡ false) ps
    → All (λ p. has_unit c p ≡ false) (push_front d ps)
unfolding has_unit
push-free c d [] e h = (rw e refl, tt)
push-free c d (p ∷ ps) e h = (rw e h.0, h.1)

-- No piece has the separator.
pub split-All : (c : ℕ) (s : Text) → All (λ p. has_unit c p ≡ false) (split c s)
unfolding split
split-All c [] = (unfold has_unit in refl, tt)
split-All c (d ∷ s) = elim (Bool-cases (d == c)) [
  | inl e ↦ rw e (unfold has_unit in refl, split-All c s)
  | inr e ↦ rw e (push-free c d (split c s) e (split-All c s))
]

-- ===== src/Js/Decimal.antt =====
-- `String(n)` for a natural number, and the number that a run of digits denotes.
use scrapydweb.Base.{
  ℕ, zero, suc, ◌+◌, ◌-◌, ◌*◌, ◌/◌, ◌%◌, ◌<◌, ◌≡◌, Bool, true, ◌&&◌, [], ◌∷◌, Text, truthy, refl,
  arith, All, leb, ◌==◌, if◌then◌else◌, Bool-cases, inl, inr, ap, ◌∙◌, sym,
}

unfoldable pub is_digit : ℕ → Bool
is_digit c = leb b'0' c && leb c b'9'

-- The digits of `n` in front of `out`; `f` rounds are enough when `n < f`.
unfoldable pub show_digits : ℕ → ℕ → Text → Text
show_digits zero n out = out
show_digits (suc f) n out =
    let out' = (b'0' + n % 10) ∷ out in
    let rest = show_digits f (n / 10) out' in if n / 10 == 0 then out' else rest

unfoldable pub show : ℕ → Text
unfolding show_digits
show n = show_digits (suc n) n []

unfoldable pub read : ℕ → Text → ℕ
read n [] = n
read n (c ∷ s) = read (n * 10 + (c - b'0')) s

read-show_digits : (f n : ℕ) (out : Text) → n < f → read 0 (show_digits f n out) ≡ read n out
unfolding show_digits read
read-show_digits zero n out h = elim h [ ]
read-show_digits (suc f) n out h = elim (Bool-cases (n / 10 == 0)) [
  | inl e ↦ rw e (ap (λ (k : ℕ). read k out) (ground arith))
  | inr e ↦ rw e (
      read-show_digits f (n / 10) ((b'0' + n % 10) ∷ out) (ground arith)
      ∙ ap (λ (k : ℕ). read k out) (omega arith))
]

-- Printing loses nothing: the digits of `n` denote `n`.
pub read-show : (n : ℕ) → read 0 (show n) ≡ n
unfolding show read
read-show n = read-show_digits (suc n) n [] (omega arith)

pub show_injective : (m n : ℕ) → show m ≡ show n → m ≡ n
show_injective m n e = sym (read-show m) ∙ ap (read 0) e ∙ read-show n

show_digits-digits :
    (f n : ℕ) (out : Text)
    → All (λ c. is_digit c ≡ true) out
    → All (λ c. is_digit c ≡ true) (show_digits f n out)
unfolding show_digits is_digit
show_digits-digits zero n out h = h
show_digits-digits (suc f) n out h = elim (Bool-cases (n / 10 == 0)) [
  | inl e ↦ rw e (ground arith, h)
  | inr e ↦ rw e (show_digits-digits f (n / 10) ((b'0' + n % 10) ∷ out) (ground arith, h))
]

pub show-digits : (n : ℕ) → All (λ c. is_digit c ≡ true) (show n)
unfolding show
show-digits n = show_digits-digits (suc n) n [] tt

truthy-show_digits : (f n c : ℕ) (out : Text) → truthy (show_digits f n (c ∷ out)) ≡ true
unfolding show_digits
truthy-show_digits zero n c out = refl
truthy-show_digits (suc f) n c out = elim (Bool-cases (n / 10 == 0)) [
  | inl e ↦ rw e
  | inr e ↦ rw e (truthy-show_digits f (n / 10) (b'0' + n % 10) (c ∷ out))
]

pub truthy-show : (n : ℕ) → truthy (show n) ≡ true
unfolding show show_digits
truthy-show n = elim (Bool-cases (n / 10 == 0)) [
  | inl e ↦ rw e
  | inr e ↦ rw e (truthy-show_digits n (n / 10) (b'0' + n % 10) [])
]

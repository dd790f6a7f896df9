-- ===== src/Js/Strings.antt =====
-- String methods: `includes`, `startsWith`, `split`, `join`, `trim`, `slice`, `indexOf`.
use scrapydweb.Base.{
  ℕ, ◌≡◌, refl, sym, ◌∙◌, Bool, true, false, ◌&&◌, ◌||◌, List, [], ◌∷◌, ◌++◌, Option, none, some,
  Text, arith, All, leb, ◌==◌, if◌then◌else◌, Bool-cases, inl, inr,
}
use mathlib.Core.List.{reverse}

-- `hay.startsWith(needle)`
unfoldable pub starts_with : Text → Text → Bool
starts_with [] hay = true
starts_with (c ∷ needle) [] = false
starts_with (c ∷ needle) (d ∷ hay) = (c == d) && starts_with needle hay

-- `hay.includes(needle)`
unfoldable pub contains : Text → Text → Bool
unfolding starts_with
contains needle [] = starts_with needle []
contains needle (d ∷ hay) = starts_with needle (d ∷ hay) || contains needle hay

-- `s.includes(c)` for one code unit
unfoldable pub has_unit : ℕ → Text → Bool
has_unit c [] = false
has_unit c (d ∷ s) = (d == c) || has_unit c s

-- put a unit in front of the first piece
abbrev pub push_front : ℕ → List Text → List Text
push_front d [] = (d ∷ []) ∷ []
push_front d (p ∷ ps) = (d ∷ p) ∷ ps

-- `s.split(c)` for one code unit
unfoldable pub split : ℕ → Text → List Text
split c [] = [] ∷ []
split c (d ∷ s) = let rest = split c s in if d == c then [] ∷ rest else push_front d rest

-- `ps.join(sep)`
unfoldable pub join : Text → List Text → Text
join sep [] = []
join sep (p ∷ []) = p
join sep (p ∷ q ∷ ps) = p ++ (sep ++ join sep (q ∷ ps))

-- The white space and line terminators that `trim` strips and `\s` matches.
unfoldable pub is_space : ℕ → Bool
is_space c =
    (leb 9 c && leb c 13)
    || (c == 32)
    || (c == 160)
    || (c == 5760)
    || (leb 8192 c && leb c 8202)
    || (c == 8232)
    || (c == 8233)
    || (c == 8239)
    || (c == 8287)
    || (c == 12288)
    || (c == 65279)

unfoldable pub drop_space : Text → Text
unfolding is_space
drop_space [] = []
drop_space (c ∷ s) = let rest = drop_space s in if is_space c then rest else c ∷ s

-- `s.trim()`
unfoldable pub trim : Text → Text
unfolding drop_space
trim s = reverse (drop_space (reverse (drop_space s)))

-- the part before the first `c` and the part behind it: `indexOf` and two `slice`s
unfoldable pub cut : ℕ → Text → Option (Text × Text)
cut c [] = none
cut c (d ∷ s) =
    let rest = cut c s in
    if d == c then some ([], s) else elim rest [ none ↦ none | some (a, b) ↦ some (d ∷ a, b) ]

pub split-free : (c : ℕ) (s : Text) → has_unit c s ≡ false → split c s ≡ s ∷ []
unfolding split has_unit
split-free c [] h = refl
split-free c (d ∷ s) h = ground (arith, split-free c s)

-- Splitting is exact: the piece before the first separator, then the pieces behind it.
pub split-append :
    (c : ℕ) (s t : Text) → has_unit c s ≡ false → split c (s ++ c ∷ t) ≡ s ∷ split c t
unfolding split has_unit
split-append c [] t h = ground arith
split-append c (d ∷ s) t h = ground (arith, split-append c s t)

-- `cut` at the first separator of a joined pair gives the pair back.
pub cut-append : (c : ℕ) (s t : Text) → has_unit c s ≡ false → cut c (s ++ c ∷ t) ≡ some (s, t)
unfolding cut has_unit
cut-append c [] t h = ground arith
cut-append c (d ∷ s) t h = ground (arith, cut-append c s t)

pub has_unit-append : (c : ℕ) (s t : Text) → has_unit c (s ++ t) ≡ (has_unit c s || has_unit c t)
unfolding has_unit
has_unit-append c [] t = refl
has_unit-append c (d ∷ s) t = ground (arith, has_unit-append c s t)

-- A text of units that differ from `c` does not have `c`.
pub All-free :
    (p : ℕ → Bool) (c : ℕ) (s : Text) → p c ≡ false → All (λ d. p d ≡ true) s → has_unit c s ≡ false
unfolding has_unit
All-free p c [] h all = refl
All-free p c (d ∷ s) h all = elim (Bool-cases (d == c)) [
  | inl e ↦ absurd (ground (arith, All-free p c s h all.1))
  | inr e ↦ rw e (All-free p c s h all.1)
]

cons_cong : {a b : ℕ} {s t : Text} → a ≡ b → s ≡ t → a ∷ s ≡ b ∷ t
cons_cong e f = cc

==_to : (a b : ℕ) → (a == b) ≡ true → a ≡ b
==_to a b e = ground arith

pub split-cases : (c : ℕ) (s : Text) → (q : Text) × (qs : List Text) × (split c s ≡ q ∷ qs)
unfolding split
split-cases c [] = ([], [], refl)
split-cases c (d ∷ s) = elim (Bool-cases (d == c)) [
  | inl e ↦ ([], split c s, rw e)
  | inr e ↦ (d ∷ (split-cases c s).0, (split-cases c s).1, rw (e, (split-cases c s).2))
]

join-front :
    (c d : ℕ) (q : Text) (qs : List Text)
    → join (c ∷ []) ((d ∷ q) ∷ qs) ≡ d ∷ join (c ∷ []) (q ∷ qs)
unfolding join
join-front c d q [] = refl
join-front c d q (p ∷ ps) = refl

abbrev pub IsCons : List Text → Type 0
IsCons ps = (q : Text) × (qs : List Text) × (ps ≡ q ∷ qs)

join-empty : (c : ℕ) (ps : List Text) → IsCons ps → join (c ∷ []) ([] ∷ ps) ≡ c ∷ join (c ∷ []) ps
unfolding join
join-empty c ps (q, qs, e) = rw e

join-push :
    (c d : ℕ) (ps : List Text) → IsCons ps → join (c ∷ []) (push_front d ps) ≡ d ∷ join (c ∷ []) ps
join-push c d ps (q, qs, e) = rw e (join-front c d q qs)

-- The pieces joined by the separator give the text back.
pub join-split : (c : ℕ) (s : Text) → join (c ∷ []) (split c s) ≡ s
unfolding split
join-split c [] = unfold join in refl
join-split c (d ∷ s) = elim (Bool-cases (d == c)) [
  | inl e ↦
      rw e (
        join-empty c (split c s) (split-cases c s) ∙ cons_cong (sym (==_to d c e)) (join-split c s))
  | inr e ↦ rw e (join-push c d (split c s) (split-cases c s) ∙ cons_cong refl (join-split c s))
]

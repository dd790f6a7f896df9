-- ===== src/Payload/Shell.antt =====
-- `shellQuote`, against how a POSIX shell reads one word.
use scrapydweb.Base.{
  ℕ, ◌+◌, ◌≤◌, ◌<◌, suc, ◌≡◌, refl, ap, Bool, true, false, ◌||◌, [], ◌∷◌, ◌++◌, Option, none, some,
  Text, all, arith, length, length-append, ◌==◌, if◌then◌else◌, Bool-cases, inl, inr,
}
use mathlib.Core.Path.{subst}
use mathlib.Core.Logic.{◌↔◌}
use scrapydweb.Js.Uri.{is_alnum}
use scrapydweb.Js.Strings.{has_unit}

-- [A-Za-z0-9_\-.=:/@]
unfoldable pub is_plain : ℕ → Bool
unfolding is_alnum
is_plain c =
    is_alnum c
    || (c == 95)
    || (c == 45)
    || (c == 46)
    || (c == 61)
    || (c == 58)
    || (c == 47)
    || (c == 64)

-- `'` becomes `'\''`
unfoldable pub close_quotes : Text → Text
close_quotes [] = []
close_quotes (c ∷ s) =
    let rest = close_quotes s in if c == 39 then 39 ∷ 92 ∷ 39 ∷ 39 ∷ rest else c ∷ rest

unfoldable pub shell_quote : Text → Text
shell_quote s = if all is_plain s then s else 39 ∷ (close_quotes s ++ 39 ∷ [])

abbrev push : ℕ → Option Text → Option Text
push c none = none
push c (some w) = some (c ∷ w)

-- How the shell reads the next unit.
pub data Quoting : Type 0 where
  bare single escaped : Quoting

-- The rest of a word that has begun, as a POSIX shell reads it: single quotes keep every unit, a backslash
-- keeps the next one. `none` when the word does not end with the text, or has a unit with another meaning.
unfoldable pub word_rest : Quoting → Text → Option Text
word_rest bare [] = some []
word_rest single [] = none
word_rest escaped [] = none
word_rest escaped (c ∷ s) = push c (word_rest bare s)
word_rest single (c ∷ s) =
    let close = word_rest bare s in
    let rest = push c (word_rest single s) in if c == 39 then close else rest
word_rest bare (c ∷ s) =
    let open_quote = word_rest single s in
    let escape = word_rest escaped s in
    let rest = push c (word_rest bare s) in
    if c == 39 then open_quote else if c == 92 then escape else if is_plain c then rest else none

-- The one word that a POSIX shell reads a text as. The empty text is no word: an empty word is written
-- with quotes.
unfoldable pub shell_word : Text → Option Text
unfolding word_rest
shell_word [] = none
shell_word (c ∷ s) = word_rest bare (c ∷ s)

abbrev pub quotes : Text → ℕ
quotes [] = 0
quotes (c ∷ s) = if c == 39 then suc (quotes s) else quotes s

abbrev slack : Quoting → ℕ
slack escaped = 1
slack bare = 0
slack single = 0

-- the bound on a word of a text with `k` quotes and `n` units
abbrev Within : Option Text → ℕ → ℕ → Type 0
Within none k n = Unit
Within (some w) k n = length w + k ≤ n

Within-to : (o : Option Text) (k n l m : ℕ) → Within o k n → l + n ≤ k + m → Within o l m
Within-to none k n l m h p = tt
Within-to (some w) k n l m h p = omega arith

Within-push :
    (c : ℕ) (o : Option Text) (k n l m : ℕ)
    → Within o k n
    → l + suc n ≤ k + m
    → Within (push c o) l m
Within-push c none k n l m h p = tt
Within-push c (some w) k n l m h p = omega arith

Within-cases :
    (a b p : Bool) (x y z : Option Text) (k n : ℕ)
    → Within x (suc k) n
    → Within y k n
    → Within z k n
    → Within (if a then x else if b then y else if p then z else none) (if a then suc k else k) n
Within-cases true b p x y z k n hx hy hz = hx
Within-cases false true p x y z k n hx hy hz = hy
Within-cases false false true x y z k n hx hy hz = hz
Within-cases false false false x y z k n hx hy hz = tt

-- A word is shorter than its text by at least one unit for each quote.
word_rest-Within : (q : Quoting) (s : Text) → Within (word_rest q s) (quotes s) (length s + slack q)
unfolding word_rest
word_rest-Within bare [] = omega arith
word_rest-Within single [] = tt
word_rest-Within escaped [] = tt
word_rest-Within escaped (c ∷ s) =
    Within-push c (word_rest bare s) (quotes s) (length s + 0) (quotes (c ∷ s)) (suc (length s) + 1)
      (word_rest-Within bare s) (ground arith)
word_rest-Within single (c ∷ s) = elim (Bool-cases (c == 39)) [
  | inl e ↦ rw e (
      Within-to (word_rest bare s) (quotes s) (length s + 0) (suc (quotes s)) (suc (length s) + 0)
        (word_rest-Within bare s) (omega arith))
  | inr e ↦ rw e (
      Within-push c (word_rest single s) (quotes s) (length s + 0) (quotes s) (suc (length s) + 0)
        (word_rest-Within single s) (omega arith))
]
word_rest-Within bare (c ∷ s) =
    Within-cases (c == 39) (c == 92) (is_plain c) (word_rest single s) (word_rest escaped s)
      (push c (word_rest bare s)) (quotes s) (suc (length s) + 0)
      (Within-to (word_rest single s) (quotes s) (length s + 0) (suc (quotes s))
        (suc (length s) + 0) (word_rest-Within single s) (omega arith))
      (Within-to (word_rest escaped s) (quotes s) (length s + 1) (quotes s) (suc (length s) + 0)
        (word_rest-Within escaped s) (omega arith))
      (Within-push c (word_rest bare s) (quotes s) (length s + 0) (quotes s) (suc (length s) + 0)
        (word_rest-Within bare s) (omega arith))

quotes-append : (s : Text) → quotes (s ++ 39 ∷ []) ≡ suc (quotes s)
quotes-append [] = refl
quotes-append (c ∷ s) = ground (arith, quotes-append s)

quotes-pos : (s : Text) → has_unit 39 s ≡ true → 0 < quotes s
unfolding has_unit
quotes-pos [] h = cc
quotes-pos (c ∷ s) h = ground (arith, quotes-pos s)

bare-word : (s : Text) → has_unit 39 s ≡ false → word_rest single (s ++ 39 ∷ []) ≡ some s
unfolding word_rest has_unit
bare-word [] h = refl
bare-word (c ∷ s) h = elim (Bool-cases (c == 39)) [
  | inl e ↦ cc (rw e at h)
  | inr e ↦ rw e (ap (push c) (bare-word s (rw e at h)))
]

-- Plain single quotes round a text are read back as the text exactly when it has no single quote.
pub shell_word-bare_quotes :
    (s : Text) → (shell_word (39 ∷ (s ++ 39 ∷ [])) ≡ some s) ↔ (has_unit 39 s ≡ false)
shell_word-bare_quotes s = (only, λ h. unfold shell_word word_rest in bare-word s h)
  where
    only : shell_word (39 ∷ (s ++ 39 ∷ [])) ≡ some s → has_unit 39 s ≡ false
    only e = elim (Bool-cases (has_unit 39 s)) [
      | inr h ↦ h
      | inl h ↦ absurd (
          let read : word_rest bare (39 ∷ (s ++ 39 ∷ [])) ≡ some s = unfold shell_word in e in
          omega (
            arith,
            subst (λ o. Within o (quotes (39 ∷ (s ++ 39 ∷ []))) (length (39 ∷ (s ++ 39 ∷ [])) + 0))
                read (word_rest-Within bare (39 ∷ (s ++ 39 ∷ []))),
            quotes-append s,
            quotes-pos s h,
            length-append s (39 ∷ []),
          ))
    ]

-- ===== src/Shared/Confirm.antt =====
-- `useConfirm` of frontend/src/components/confirm-dialog.tsx: the promises of `confirm` and how the dialog
-- settles them.
pub mod View
use scrapydweb.Base.{
  ℕ, ◌≡◌, refl, ◌∙◌, Bool, true, false, Option, none, some, List, [], ◌∷◌, ◌==◌, ==_iff,
  if◌then◌else◌, arith, sym, ap, inl, inr, Bool-cases, Option-cases,
}

-- The promise whose options are shown, and the answers that promises have: the first one stays.
pub record ConfirmState : Type 0 where
  pub shown : Option ℕ
  pub answers : List (ℕ × Bool)

unfoldable pub answer_of : ℕ → List (ℕ × Bool) → Option Bool
answer_of n [] = none
answer_of n ((m, ok) ∷ rest) = let later = answer_of n rest in if m == n then some ok else later

abbrev pub keep_first : Option Bool → ℕ → Bool → List (ℕ × Bool) → List (ℕ × Bool)
keep_first (some old) n ok answers = answers
keep_first none n ok answers = (n, ok) ∷ answers

-- `resolve(ok)` of the promise `n`: a promise that has an answer keeps it
unfoldable pub resolve : ℕ → Bool → List (ℕ × Bool) → List (ℕ × Bool)
unfolding answer_of
resolve n ok answers = keep_first (answer_of n answers) n ok answers

unfoldable pub confirm : ℕ → ConfirmState → ConfirmState
confirm n s = record s { shown = some n }

-- `close(ok)`, with the state of the render whose handler runs
unfoldable pub close : Option ℕ → Bool → ConfirmState → ConfirmState
unfolding resolve
close none ok s = record s { shown = none }
close (some n) ok s = record { shown = none; answers = resolve n ok s.answers }

pub data Event : Type 0 where
  asked : ℕ → Event
  closed : (rendered : Option ℕ) → (ok : Bool) → Event

unfoldable pub happen : List Event → ConfirmState → ConfirmState
unfolding confirm close
happen [] s = s
happen (asked n ∷ es) s = happen es (confirm n s)
happen (closed r ok ∷ es) s = happen es (close r ok s)

==_self : (n : ℕ) → (n == n) ≡ true
==_self n = ground arith

none≢some : {b : Bool} → none ≡ some b → ⊥
none≢some e = cc

-- one without an answer is not one with an answer
differ :
    (m n : ℕ) (b : Bool) (kept : List (ℕ × Bool))
    → answer_of m kept ≡ none
    → answer_of n kept ≡ some b
    → (m == n) ≡ false
differ m n b kept e h = elim (Bool-cases (m == n)) [
  | inl t ↦ absurd (none≢some (sym e ∙ ap (λ (k : ℕ). answer_of k kept) (((==_iff m n).0) t) ∙ h))
  | inr f ↦ f
]

cons-answer :
    (n m : ℕ) (ok b : Bool) (kept : List (ℕ × Bool))
    → answer_of n kept ≡ some b
    → (m == n) ≡ false
    → answer_of n ((m, ok) ∷ kept) ≡ some b
unfolding answer_of
cons-answer n m ok b kept h f = rw f h

answer-resolve :
    (n m : ℕ) (ok b : Bool) (kept : List (ℕ × Bool))
    → answer_of n kept ≡ some b
    → answer_of n (resolve m ok kept) ≡ some b
unfolding resolve
answer-resolve n m ok b kept h = elim (Option-cases (answer_of m kept)) [
  | inl e ↦ rw e (cons-answer n m ok b kept h (differ m n b kept e h))
  | inr (old, e) ↦ rw e h
]

answer-happen :
    (es : List Event) (n : ℕ) (b : Bool) (s : ConfirmState)
    → answer_of n s.answers ≡ some b
    → answer_of n (happen es s).answers ≡ some b
unfolding happen close confirm
answer-happen [] n b s h = h
answer-happen (asked m ∷ es) n b s h = answer-happen es n b (confirm m s) h
answer-happen (closed none ok ∷ es) n b s h = answer-happen es n b (close none ok s) h
answer-happen (closed (some m) ok ∷ es) n b s h =
    answer-happen es n b (close (some m) ok s) (answer-resolve n m ok b s.answers h)

head_answer : (n : ℕ) (ok : Bool) (kept : List (ℕ × Bool)) → answer_of n ((n, ok) ∷ kept) ≡ some ok
unfolding answer_of
head_answer n ok kept = rw (==_self n) refl

answer-first :
    (n : ℕ) (ok : Bool) (kept : List (ℕ × Bool))
    → answer_of n kept ≡ none
    → answer_of n (resolve n ok kept) ≡ some ok
unfolding resolve
answer-first n ok kept h = rw h (head_answer n ok kept)

-- A promise without an answer gets the answer of the button that is clicked, and keeps it: the dialog
-- closing behind the click, and whatever is asked and closed later, do not change it.
pub answer-clicked :
    (n : ℕ) (ok : Bool) (es : List Event) (s : ConfirmState)
    → answer_of n s.answers ≡ none
    → answer_of n (happen (closed (some n) ok ∷ closed (some n) false ∷ es) s).answers ≡ some ok
unfolding happen close
answer-clicked n ok es s h =
    answer-happen (closed (some n) false ∷ es) n ok (close (some n) ok s)
      (answer-first n ok s.answers h)

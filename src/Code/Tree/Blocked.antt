-- ===== src/Code/Tree/Blocked.antt =====
-- Files that are in the way of a path: the page shows nothing below a file.
use scrapydweb.Base.{
  ◌≡◌, refl, ap, Bool, false, not, ◌&&◌, ◌||◌, List, [], ◌∷◌, ◌++◌, Text, same, same-eq, Bool-cases,
  inl, inr, arith, if◌then◌else◌,
}
use scrapydweb.Code.Tree.{Forest, nil, node, chain, insert, is_cons, leads_to}

-- whether the parts lead through a file of the forest
unfoldable pub blocked : List Text → Forest → Bool
blocked [] f = false
blocked (p ∷ ps) nil = false
blocked (p ∷ ps) (node n path dir c s) =
    let deeper = blocked ps c in
    let later = blocked (p ∷ ps) s in if same n p then (not dir && is_cons ps) || deeper else later

blocked-none : (f : Forest) → blocked [] f ≡ false
unfolding blocked
blocked-none f = refl

pub blocked-nil : (ps : List Text) → blocked ps nil ≡ false
unfolding blocked
blocked-nil [] = refl
blocked-nil (p ∷ ps) = refl

chain-clear :
    (done qs ps : List Text)
    → (is_cons qs && leads_to qs ps) ≡ false
    → blocked ps (chain done qs) ≡ false
unfolding blocked chain leads_to
chain-clear done [] ps h = blocked-nil ps
chain-clear done (q ∷ qs) [] h = refl
chain-clear done (q ∷ []) (p ∷ ps) h = ground (arith, h, blocked-nil ps)
chain-clear done (q ∷ r ∷ qs) (p ∷ ps) h =
    ground (arith, h, chain-clear (done ++ q ∷ []) (r ∷ qs) ps)

-- Inserting a path that does not lead to the parts puts no file in their way.
pub insert-clear :
    (done qs : List Text) (f : Forest) (ps : List Text)
    → blocked ps f ≡ false
    → (is_cons qs && leads_to qs ps) ≡ false
    → blocked ps (insert done qs f) ≡ false
unfolding blocked insert leads_to
insert-clear done [] f ps h k = h
insert-clear done (q ∷ qs) nil ps h k = chain-clear done (q ∷ qs) ps k
insert-clear done (q ∷ qs) (node n path dir c s) [] h k =
    blocked-none (insert done (q ∷ qs) (node n path dir c s))
insert-clear done (q ∷ qs) (node n path dir c s) (p ∷ ps) h k = elim (Bool-cases (same n q)) [
  | inl e ↦ rw e (
      ground
        (arith, h, k, ap (λ x. same x p) (same-eq n q e), insert-clear (done ++ q ∷ []) qs c ps))
  | inr e ↦ rw e (ground (arith, h, insert-clear done (q ∷ qs) s (p ∷ ps), k))
]

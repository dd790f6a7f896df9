-- ===== src/Shared/NodeContext.antt =====
-- `NodeProvider` of frontend/src/lib/node-context.tsx: the selected node and its saved copy.
use scrapydweb.Base.{
  ℕ, ◌≤◌, ◌≡◌, ◌⊎◌, refl, ap, ◌∙◌, inl, inr, Bool, true, false, List, [], ◌∷◌, Option, none, some,
  Text, any, leb, ◌==◌, if◌then◌else◌, arith, Bool-cases,
}
use scrapydweb.Js.Decimal.{show}
use scrapydweb.Api.Types.{NodeInfo}

-- the React state and the entry "scrapydweb.node" of `localStorage`
pub record NodeState : Type 0 where
  pub node : ℕ
  pub saved : Option Text

-- `Number(s)` when that is a natural number; the language's parse of numerals is a parameter.
module _ (integer : Text → Option ℕ) where
  abbrev at_least_one : Option ℕ → ℕ
  at_least_one none = 1
  at_least_one (some n) = if leb 1 n then n else 1

  -- `Number(null)` is 0, which is no node
  unfoldable pub initial_node : Option Text → ℕ
  initial_node none = 1
  initial_node (some s) = at_least_one (integer s)

  unfoldable pub mount : Option Text → NodeState
  mount saved = record { node = initial_node saved; saved = saved }

unfoldable pub set_node : ℕ → NodeState → NodeState
set_node n s = record { node = n; saved = some (show n) }

unfoldable pub has_node : List NodeInfo → ℕ → Bool
has_node nodes node = any (λ n. n.node == node) nodes

-- the effect that runs when the list of nodes or the node changes
unfoldable pub clamp : List NodeInfo → NodeState → NodeState
clamp [] s = s
clamp (n ∷ ns) s = if has_node (n ∷ ns) s.node then s else set_node 1 s

-- `refetchInterval`, in milliseconds: poll until a server shows up
unfoldable pub refetch_interval : Option (List NodeInfo) → Option ℕ
refetch_interval none = some 15000
refetch_interval (some []) = some 15000
refetch_interval (some (n ∷ ns)) = none

clamp-kept :
    (nodes : List NodeInfo) (s : NodeState) → has_node nodes s.node ≡ true → clamp nodes s ≡ s
unfolding clamp
clamp-kept [] s e = refl
clamp-kept (n ∷ ns) s e = rw e

clamp-reset :
    (n : NodeInfo) (ns : List NodeInfo) (s : NodeState)
    → has_node (n ∷ ns) s.node ≡ false
    → clamp (n ∷ ns) s ≡ set_node 1 s
unfolding clamp
clamp-reset n ns s e = rw e

-- the first node stays selected, listed or not
clamp-first : (nodes : List NodeInfo) (s : NodeState) → (clamp nodes (set_node 1 s)).node ≡ 1
unfolding set_node
clamp-first [] s = unfold clamp in refl
clamp-first (n ∷ ns) s = elim (Bool-cases (has_node (n ∷ ns) 1)) [
  | inl e ↦ rw (clamp-kept (n ∷ ns) (set_node 1 s) e)
  | inr e ↦ rw (clamp-reset n ns (set_node 1 s) e)
]

-- After the effect the node is one of the list, or it is node 1, or the list is empty; running the
-- effect again changes nothing of the node.
clamp_lem :
    (nodes : List NodeInfo) (s : NodeState)
    → ((has_node nodes (clamp nodes s).node ≡ true) ⊎ ((clamp nodes s).node ≡ 1) ⊎ (nodes ≡ []))
      × ((clamp nodes (clamp nodes s)).node ≡ (clamp nodes s).node)
clamp_lem [] s = (inr (inr refl), unfold clamp in refl)
clamp_lem (n ∷ ns) s = elim (Bool-cases (has_node (n ∷ ns) s.node)) [
  | inl e ↦
      rw (clamp-kept (n ∷ ns) s e) (inl e, ap (λ (t : NodeState). t.node) (clamp-kept (n ∷ ns) s e))
  | inr e ↦
      rw (clamp-reset n ns s e)
        (inr (inl (unfold set_node in refl)), clamp-first (n ∷ ns) s ∙ unfold set_node in refl)
]

module _ (integer : Text → Option ℕ) (reads : (n : ℕ) → integer (show n) ≡ some n) where
  -- When `Number` reads what `String` prints of a number: a node from 1 on that was selected is the node
  -- of the next visit.
  pub mount-set_node :
      (n : ℕ) (s : NodeState) → 1 ≤ n → (mount integer (set_node n s).saved).node ≡ n
  unfolding mount initial_node set_node
  mount-set_node n s h = rw (reads n) (ground arith)

-- ===== src/Shared/NodeSelect.antt =====
-- `toggle` of frontend/src/components/node-multi-select.tsx.
pub mod View
use scrapydweb.Base.{
  ℕ, ◌≡◌, refl, not, ◌&&◌, ◌||◌, List, [], ◌∷◌, ◌++◌, filter, includes, leb, ◌==◌, if◌then◌else◌,
  arith,
}

unfoldable pub insert : ℕ → List ℕ → List ℕ
insert n [] = n ∷ []
insert n (m ∷ ms) = let rest = insert n ms in if leb n m then n ∷ m ∷ ms else m ∷ rest

-- `.sort((a, b) => a - b)`
unfoldable pub sort : List ℕ → List ℕ
sort [] = []
sort (n ∷ ns) = insert n (sort ns)

-- a selected node is dropped; another is added and the list is sorted
unfoldable pub toggle : ℕ → List ℕ → List ℕ
toggle n value =
    if includes value n then filter (λ x. not (x == n)) value else sort (value ++ n ∷ [])

includes-insert :
    (n : ℕ) (ms : List ℕ) (k : ℕ) → includes (insert n ms) k ≡ ((n == k) || includes ms k)
unfolding insert includes
includes-insert n [] k = refl
includes-insert n (m ∷ ms) k = ground (arith, includes-insert n ms k)

includes-sort : (ns : List ℕ) (k : ℕ) → includes (sort ns) k ≡ includes ns k
unfolding sort
includes-sort [] k = refl
includes-sort (n ∷ ns) k =
    rw (includes-insert n (sort ns) k, includes-sort ns k) (unfold includes in refl)

includes-append : (ns : List ℕ) (n k : ℕ) → includes (ns ++ n ∷ []) k ≡ (includes ns k || (n == k))
unfolding includes
includes-append [] n k = ground arith
includes-append (m ∷ ns) n k = ground (arith, includes-append ns n k)

includes-drop :
    (n : ℕ) (ns : List ℕ) (k : ℕ)
    → includes (filter (λ x. not (x == n)) ns) k ≡ (not (n == k) && includes ns k)
unfolding includes filter
includes-drop n [] k = ground arith
includes-drop n (m ∷ ns) k = ground (arith, includes-drop n ns k)

-- Toggling a node changes whether that node is selected, and no other.
pub includes-toggle :
    (n : ℕ) (value : List ℕ) (k : ℕ)
    → includes (toggle n value) k ≡ (if n == k then not (includes value k) else includes value k)
unfolding toggle
includes-toggle n value k =
    ground
      (arith, includes-drop n value k, includes-sort (value ++ n ∷ []) k, includes-append value n k)

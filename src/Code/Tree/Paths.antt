-- ===== src/Code/Tree/Paths.antt =====
-- The path of every node of the tree, and the marks of its folders.
use scrapydweb.Base.{◌≡◌, Bool, List, [], ◌∷◌, ◌++◌, Text, Bool-cases, inl, inr}
use scrapydweb.Js.Strings.{split, join}
use scrapydweb.Code.Tree.{Forest, nil, node, insert_all, in_order, place, sort, build_tree, slash}
use scrapydweb.Code.Tree.Reach.{IsPathed, insert-IsPathed}

module _ (before : Text → Text → Bool) (done : List Text) where
  place-IsPathed :
      (name path : Text) (dir : Bool) (c s : Forest)
      → path ≡ join slash (done ++ name ∷ [])
      → IsPathed (done ++ name ∷ []) c
      → IsPathed done s
      → IsPathed done (place before name path dir c s)
  unfolding place
  place-IsPathed name path dir c nil e h k = (e, h, tt)
  place-IsPathed name path dir c (node n p d i s) e h k =
      elim (Bool-cases (in_order before dir name d n)) [
        | inl o ↦ rw o (e, h, k)
        | inr o ↦ rw o (k.0, k.1, place-IsPathed name path dir c s e h k.2)
      ]

sort-IsPathed :
    (before : Text → Text → Bool) (done : List Text) (f : Forest)
    → IsPathed done f
    → IsPathed done (sort before f)
unfolding sort
sort-IsPathed before done nil h = tt
sort-IsPathed before done (node name path dir c s) h =
    place-IsPathed before done name path dir (sort before c) (sort before s) h.0
      (sort-IsPathed before (done ++ name ∷ []) c h.1) (sort-IsPathed before done s h.2)

insert_all-IsPathed :
    (paths : List Text) (f : Forest) → IsPathed [] f → IsPathed [] (insert_all paths f)
unfolding insert_all
insert_all-IsPathed [] f h = h
insert_all-IsPathed (p ∷ ps) f h = insert_all-IsPathed ps _ (insert-IsPathed [] (split 47 p) f h)

-- Every node of the tree has the joined names that lead to it for its path.
pub build_tree-IsPathed :
    (before : Text → Text → Bool) (paths : List Text) → IsPathed [] (build_tree before paths)
unfolding build_tree
build_tree-IsPathed before paths = sort-IsPathed before [] _ (insert_all-IsPathed paths nil tt)

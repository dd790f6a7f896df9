-- ===== src/Code/Tree.antt =====
-- `buildTree`: the folders and files of a list of paths.
pub mod Blocked
pub mod Reach
pub mod Paths
use scrapydweb.Base.{
  ℕ, ◌≡◌, refl, sym, ap, ◌∙◌, Bool, true, false, not, ◌&&◌, List, [], ◌∷◌, ◌++◌, Text, text, same,
  same-eq, if◌then◌else◌, all, Bool-cases, inl, inr, append_assoc,
}
use scrapydweb.Js.Strings.{split, join}

-- the children of a node, from the first: each has a name, a path, a mark and its own children
pub data Forest : Type 0 where
  nil : Forest
  node : (name path : Text) → (dir : Bool) → (children siblings : Forest) → Forest

abbrev pub slash : Text
slash = 47 ∷ []

abbrev is_empty : List Text → Bool
is_empty [] = true
is_empty (_ ∷ _) = false

-- The parts of a path behind the parts `done`, where no child has the first one's name yet.
unfoldable pub chain : List Text → List Text → Forest
unfolding join
chain done [] = nil
chain done (part ∷ rest) =
    node part (join slash (done ++ part ∷ [])) (not (is_empty rest))
      (chain (done ++ part ∷ []) rest) nil

-- the loop over the parts of one path
unfoldable pub insert : List Text → List Text → Forest → Forest
unfolding chain same
insert done [] f = f
insert done (part ∷ rest) nil = chain done (part ∷ rest)
insert done (part ∷ rest) (node name path dir children siblings) =
    let inside = insert (done ++ part ∷ []) rest children in
    let beside = insert done (part ∷ rest) siblings in
    if same name part
    then node name path dir inside siblings
    else node name path dir children beside

unfoldable pub insert_all : List Text → Forest → Forest
unfolding insert split
insert_all [] f = f
insert_all (p ∷ ps) f = insert_all ps (insert [] (split 47 p) f)

-- `a.name.localeCompare(b.name) <= 0` is a parameter.
module _ (before : Text → Text → Bool) where
  -- folders first, then by the names
  unfoldable pub in_order : Bool → Text → Bool → Text → Bool
  in_order true a false b = true
  in_order false a true b = false
  in_order _ a _ b = before a b

  unfoldable pub place : Text → Text → Bool → Forest → Forest → Forest
  unfolding in_order
  place name path dir children nil = node name path dir children nil
  place name path dir children (node n p d c s) =
      let later = place name path dir children s in
      if in_order dir name d n
      then node name path dir children (node n p d c s)
      else node n p d c later

  -- `sortRec`
  unfoldable pub sort : Forest → Forest
  unfolding place
  sort nil = nil
  sort (node name path dir children siblings) = place name path dir (sort children) (sort siblings)

  unfoldable pub build_tree : List Text → Forest
  unfolding insert_all sort
  build_tree paths = sort (insert_all paths nil)

-- The node with `path` is reached by opening the folders with these names, one in another: the page shows
-- the children of folders only.
pub data Has : List Text → Text → Forest → Type 0 where
  here :
      (name path : Text) (dir : Bool) (children siblings : Forest)
      → Has (name ∷ []) path (node name path dir children siblings)
  inside :
      (names : List Text) (q name path : Text) (children siblings : Forest)
      → Has names q children
      → Has (name ∷ names) q (node name path true children siblings)
  beside :
      (names : List Text) (q name path : Text) (dir : Bool) (children siblings : Forest)
      → Has names q siblings
      → Has names q (node name path dir children siblings)

abbrev pub is_cons : List Text → Bool
is_cons [] = false
is_cons (_ ∷ _) = true

-- whether the first parts are all of the second and more follow: a file there would be a folder of the other
unfoldable pub leads_to : List Text → List Text → Bool
unfolding same
leads_to [] ps = is_cons ps
leads_to (q ∷ qs) [] = false
leads_to (q ∷ qs) (p ∷ ps) = same q p && leads_to qs ps

-- No path of the list is a folder of a later one.
unfoldable pub is_clear : List Text → Bool
unfolding leads_to split all
is_clear [] = true
is_clear (p ∷ ps) = all (λ q. not (leads_to (split 47 p) (split 47 q))) ps && is_clear ps

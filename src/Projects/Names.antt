-- ===== src/Projects/Names.antt =====
-- The names of the projects page: those of the node and the registered ones, each once, in order.
use scrapydweb.Base.{
  ℕ, ◌+◌, ◌≡◌, refl, ap, ◌∙◌, Bool, true, false, ◌||◌, List, [], ◌∷◌, ◌++◌, Text, same, same_iff,
  includes_text, includes_text-append, if◌then◌else◌, arith, Bool-cases, inl, inr,
}

-- `new Set(names)`, in the order of its elements
unfoldable pub add_name : Text → List Text → List Text
unfolding includes_text
add_name x set = if includes_text set x then set else set ++ x ∷ []

unfoldable pub add_names : List Text → List Text → List Text
unfolding add_name
add_names [] set = set
add_names (x ∷ xs) set = add_names xs (add_name x set)

-- `a.localeCompare(b) <= 0` is a parameter.
module _ (before : Text → Text → Bool) where
  unfoldable pub insert_name : Text → List Text → List Text
  insert_name x [] = x ∷ []
  insert_name x (y ∷ ys) =
      let rest = insert_name x ys in if before x y then x ∷ y ∷ ys else y ∷ rest

  unfoldable pub sort_names : List Text → List Text
  unfolding insert_name
  sort_names [] = []
  sort_names (x ∷ xs) = insert_name x (sort_names xs)

  unfoldable pub project_names : List Text → List Text → List Text
  unfolding sort_names add_names
  project_names node_names registered = sort_names (add_names (node_names ++ registered) [])

abbrev pub bit : Bool → ℕ
bit true = 1
bit false = 0

-- how often a name is in a list
unfoldable pub count : Text → List Text → ℕ
count k [] = 0
count k (x ∷ xs) = bit (same x k) + count k xs

count-append :
    (k : Text) (xs : List Text) (x : Text) → count k (xs ++ x ∷ []) ≡ count k xs + bit (same x k)
unfolding count
count-append k [] x = omega arith
count-append k (y ∷ xs) x = omega (arith, count-append k xs x)

includes-joined :
    (xs ys : List Text) (k : Text)
    → includes_text (xs ++ ys) k ≡ (includes_text xs k || includes_text ys k)
unfolding includes_text
includes-joined [] ys k = refl
includes-joined (x ∷ xs) ys k = ground (arith, includes-joined xs ys k)

-- A set has a name once or not at all.
abbrev IsOnce : List Text → Text → Type 0
IsOnce set k = count k set ≡ bit (includes_text set k)

add_name-IsOnce : (x : Text) (set : List Text) (k : Text) → IsOnce set k → IsOnce (add_name x set) k
unfolding add_name
add_name-IsOnce x set k h =
    ground (arith, h, count-append k set x, includes_text-append set x k, same_iff x k)

includes-add_name :
    (x : Text) (set : List Text) (k : Text)
    → includes_text (add_name x set) k ≡ (includes_text set k || same x k)
unfolding add_name
includes-add_name x set k = ground (arith, includes_text-append set x k, same_iff x k)

regroup :
    (x : Text) (xs set : List Text) (k : Text)
    → (includes_text (add_name x set) k || includes_text xs k)
      ≡ (includes_text set k || includes_text (x ∷ xs) k)
unfolding includes_text
regroup x xs set k = rw (includes-add_name x set k) (ground arith)

count-add_names :
    (xs set : List Text) (k : Text)
    → IsOnce set k
    → count k (add_names xs set) ≡ bit (includes_text set k || includes_text xs k)
unfolding add_names
count-add_names [] set k h = h ∙ ap bit (ground arith)
count-add_names (x ∷ xs) set k h =
    count-add_names xs (add_name x set) k (add_name-IsOnce x set k h) ∙ ap bit (regroup x xs set k)

count-cons :
    (k x : Text) (xs : List Text) {n : ℕ} → n ≡ count k xs → bit (same x k) + n ≡ count k (x ∷ xs)
unfolding count
count-cons k x xs e = omega (arith, e)

module _ (before : Text → Text → Bool) where
  count-insert_name :
      (k x : Text) (ys : List Text)
      → count k (insert_name before x ys) ≡ bit (same x k) + count k ys
  unfolding insert_name count
  count-insert_name k x [] = refl
  count-insert_name k x (y ∷ ys) = elim (Bool-cases (before x y)) [
    | inl e ↦ rw e
    | inr e ↦ rw e (omega (arith, count-insert_name k x ys))
  ]

  count-sort_names : (k : Text) (xs : List Text) → count k (sort_names before xs) ≡ count k xs
  unfolding sort_names
  count-sort_names k [] = refl
  count-sort_names k (x ∷ xs) =
      count-insert_name k x (sort_names before xs) ∙ count-cons k x xs (count-sort_names k xs)

  -- Each name of the node's projects and of the registered ones is listed exactly once, and no other.
  count-project_names :
      (node_names registered : List Text) (k : Text)
      → count k (project_names before node_names registered)
        ≡ bit (includes_text node_names k || includes_text registered k)
  unfolding project_names
  count-project_names xs ys k =
      count-sort_names k (add_names (xs ++ ys) [])
      ∙ count-add_names (xs ++ ys) [] k (unfold count includes_text in refl)
      ∙ ap bit (unfold includes_text in includes-joined xs ys k)

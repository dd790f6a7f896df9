-- ===== src/Code/View/Visible.antt =====
-- Which nodes of the tree are shown.
use scrapydweb.Base.{Bool, false, ◌||◌, List, [], ◌∷◌, Text, same}
use scrapydweb.Js.View.{Shown}
use scrapydweb.Js.View
use scrapydweb.Code.View.{Event, toggle_folder, select}

abbrev path_of : Event → Text
path_of (toggle_folder p) = p
path_of (select p) = p

-- whether there is a button for the node with a path
unfoldable pub shows : Text → List (Shown Event) → Bool
shows p [] = false
shows p (View.button l b e ∷ xs) = same (path_of e) p || shows p xs
shows p (View.says t ∷ xs) = shows p xs
shows p (View.badge t ∷ xs) = shows p xs
shows p (View.link l h ∷ xs) = shows p xs
shows p (View.jump l h e ∷ xs) = shows p xs
shows p (View.input v b f ∷ xs) = shows p xs
shows p (View.choice v o b f ∷ xs) = shows p xs
shows p (View.toggle l c f ∷ xs) = shows p xs

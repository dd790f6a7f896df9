-- ===== src/Code/View.antt =====
-- What `Tree` and `CodePage` show: the open folders, and the lines of the selected file.
pub mod Visible
use scrapydweb.Base.{
  ℕ, suc, Bool, true, Option, none, some, or_else, List, [], ◌∷◌, ◌++◌, Text, text, same,
  includes_text, if◌then◌else◌,
}
use scrapydweb.Js.Decimal.{show}
use scrapydweb.Js.Strings.{split}
use scrapydweb.Js.View.{Shown, when}
use scrapydweb.Js.View
use scrapydweb.Code.Tree.{Forest, nil, node, build_tree}
use scrapydweb.Code.Page.{CodeState, listed_files, toggle}

pub data Event : Type 0 where
  toggle_folder select : Text → Event

unfoldable pub handle : Event → CodeState → CodeState
unfolding toggle
handle (toggle_folder p) s = record s { expanded = toggle p s.expanded }
handle (select p) s = record s { selected = some p }

-- a folder's children are shown while it is expanded; a file has none
unfoldable pub tree_view : List Text → Forest → List (Shown Event)
unfolding includes_text
tree_view expanded nil = []
tree_view expanded (node name path dir children siblings) =
    let inside = tree_view expanded children in
    let beside = tree_view expanded siblings in
    if dir
    then View.button name true (toggle_folder path)
      ∷ (when (includes_text expanded path) inside ++ beside)
    else View.button name true (select path) ∷ beside

-- the lines of a file, numbered from `n`
unfoldable pub numbered : ℕ → List Text → List (Shown Event)
numbered n [] = []
numbered n (l ∷ ls) = View.says (show n) ∷ View.says l ∷ numbered (suc n) ls

-- the answer for a file: its status, its text and a message
pub record FileAnswer : Type 0 where
  pub status : Text
  pub text_of : Option Text
  pub message : Option Text

unfoldable pub file_view : Option FileAnswer → List (Shown Event)
unfolding numbered split same
file_view none = View.says (text "—") ∷ []
file_view (some f) =
    if same f.status (text "ok")
    then numbered 1 (split 10 (or_else f.text_of []))
    else View.says (or_else f.message (text "—")) ∷ []

pub record Listing : Type 0 where
  pub status : Text
  pub files : List Text
  pub message : Option Text

-- the page, for the answer of the list, if it is there; `before` is `localeCompare`
unfoldable pub code_view :
    (Text → Text → Bool)
    → (project version : Text) → Option Listing
    → CodeState
    → (file_loading : Bool) → Option FileAnswer
    → List (Shown Event)
unfolding tree_view build_tree listed_files file_view same
code_view before project version listing s file_loading file =
    View.says project
    ∷ View.says (text "version " ++ (version ++ text " · deployed egg source"))
    ∷ body listing
  where
    explorer : Listing → List (Shown Event)
    explorer l =
        View.says (text "Explorer")
        ∷ (tree_view s.expanded (build_tree before (listed_files l.files))
            ++ View.says (or_else s.selected (text "select a file"))
              ∷ (if file_loading then [] else file_view file))

    body : Option Listing → List (Shown Event)
    body none = View.says (text "Failed to load the egg.") ∷ []
    body (some l) =
        if same l.status (text "ok")
        then explorer l
        else View.says (or_else l.message (text "Failed to load the egg.")) ∷ []

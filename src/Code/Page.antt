-- ===== src/Code/Page.antt =====
-- The page of an egg's code: which files are listed, which one is selected first, which folders are open.
pub mod Reveal
use scrapydweb.Base.{
  ℕ, Bool, true, false, not, ◌&&◌, ◌||◌, Option, none, some, or_else, List, [], ◌∷◌, ◌++◌, Text,
  text, truthy, same, includes_text, filter, find, if◌then◌else◌,
}
use scrapydweb.Js.Strings.{starts_with, contains, split}
use scrapydweb.Code.Tree.{slash}

-- `s.endsWith(suffix)`
unfoldable pub ends_with : Text → Text → Bool
unfolding same
ends_with suffix [] = same [] suffix
ends_with suffix (c ∷ s) = same (c ∷ s) suffix || ends_with suffix s

-- the files that the page lists
unfoldable pub listed_files : List Text → List Text
unfolding filter starts_with same
listed_files paths =
    filter (λ p. not (starts_with (text "EGG-INFO/") p) || same p (text "EGG-INFO/requires.txt"))
      paths

pub data FileIcon : Type 0 where
  code_icon text_icon : FileIcon

unfoldable pub file_icon : Text → FileIcon
unfolding ends_with
file_icon name = if ends_with (text ".py") name then code_icon else text_icon

-- `selected` and the set `expanded`
pub record CodeState : Type 0 where
  pub selected : Option Text
  pub expanded : List Text

unfoldable pub add : Text → List Text → List Text
unfolding includes_text
add p set = if includes_text set p then set else set ++ p ∷ []

unfoldable pub toggle : Text → List Text → List Text
unfolding includes_text filter
toggle p set = if includes_text set p then filter (λ q. not (same q p)) set else set ++ p ∷ []

-- the paths that the loop over `parts` adds, with `acc` so far
unfoldable pub folders : Text → List Text → List Text
folders acc [] = []
folders acc (p ∷ ps) =
    let next = if truthy acc then acc ++ (slash ++ p) else p in next ∷ folders next ps

unfoldable pub add_all : List Text → List Text → List Text
unfolding add
add_all [] set = set
add_all (p ∷ ps) set = add_all ps (add p set)

-- `xs.slice(0, -1)`
abbrev pub but_last : List Text → List Text
but_last [] = []
but_last (x ∷ []) = []
but_last (x ∷ y ∷ xs) = x ∷ but_last (y ∷ xs)

-- the first file of a spider, else the first file
unfoldable pub first_file : Text → List Text → Text
unfolding find contains ends_with
first_file f fs =
    or_else (find (λ p. contains (text "spiders/") p && ends_with (text ".py") p) (f ∷ fs)) f

abbrev pub has_selected : Option Text → Bool
has_selected none = false
has_selected (some p) = truthy p

unfoldable pub select_first : Text → List Text → CodeState → CodeState
unfolding first_file add_all folders split
select_first f fs s =
    let path = first_file f fs in
    record {
      selected = some path;
      expanded = add_all (folders [] (but_last (split 47 path))) s.expanded;
    }

-- the effect on `[files, selected]`
unfoldable pub auto_select : List Text → CodeState → CodeState
unfolding select_first
auto_select [] s = s
auto_select (f ∷ fs) s = if has_selected s.selected then s else select_first f fs s

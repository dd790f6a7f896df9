-- ===== src/Frame/Search.antt =====
-- `SearchCommand`: when it opens, what it asks for and what it shows.
use scrapydweb.Base.{
  ℕ, Bool, true, false, not, ◌&&◌, ◌||◌, Option, none, some, List, [], ◌∷◌, ◌++◌, Text, text,
  truthy, same, if◌then◌else◌,
}
use scrapydweb.Js.Decimal.{show}
use scrapydweb.Js.Strings.{trim}
use scrapydweb.Js.View.{Shown, when, concat_map}
use scrapydweb.Js.View
use scrapydweb.Api.Calls.{Call, search}

pub record SearchState : Type 0 where
  pub is_open : Bool
  pub query : Text

-- a key that is pressed, and the element that has the focus, if any
pub record Target : Type 0 where
  pub tag_name : Text
  pub is_editable : Bool

pub record Key : Type 0 where
  pub key : Text
  pub meta : Bool
  pub ctrl : Bool
  pub target : Option Target

unfoldable pub is_typing : Option Target → Bool
unfolding same
is_typing none = false
is_typing (some t) =
    same t.tag_name (text "INPUT") || same t.tag_name (text "TEXTAREA") || t.is_editable

pub data Event : Type 0 where
  pressed : Key → Event
  open_change : Bool → Event
  type_query : Text → Event
  select : Event

-- whether the key's default is prevented and the dialog toggled
unfoldable pub is_shortcut : Key → Bool
unfolding same is_typing
is_shortcut k =
    (same k.key (text "k") && (k.meta || k.ctrl))
    || (same k.key (text "/") && not (is_typing k.target))

-- the state, and the page that is visited
unfoldable pub handle : Event → SearchState → SearchState × Option Text
unfolding is_shortcut
handle (pressed k) s = (if is_shortcut k then record s { is_open = not s.is_open } else s, none)
handle (open_change b) s = (record s { is_open = b }, none)
handle (type_query t) s = (record s { query = t }, none)
handle select s = (record s { is_open = false }, some (text "/jobs"))

-- the query that is enabled, if it is
unfoldable pub asked : ℕ → SearchState → Option Call
unfolding trim
asked node s = if s.is_open && truthy (trim s.query) then some (search node s.query) else none

pub record Found : Type 0 where
  pub project : Text
  pub spider : Text
  pub job : Text
  pub status_label : Text

abbrev empty_text : Bool → Bool → Text
empty_text true true = text "Searching…"
empty_text true false = text "No results."
empty_text false fetching = text "Type to search jobs across this node."

-- the dialog; the text for no result is shown while the list is empty
unfoldable pub search_view : ℕ → Bool → List Found → SearchState → List (Shown Event)
unfolding trim
search_view node fetching results s = View.input s.query true type_query ∷ found results
  where
    found : List Found → List (Shown Event)
    found [] = View.says (empty_text (truthy (trim s.query)) fetching) ∷ []
    found (r ∷ rs) =
        View.says (text "Jobs on node " ++ show node)
        ∷ concat_map
            (λ (r : Found).
              View.button r.job true select
              ∷ View.says r.project
              ∷ View.says r.spider
              ∷ View.badge r.status_label
              ∷ [])
            (r ∷ rs)

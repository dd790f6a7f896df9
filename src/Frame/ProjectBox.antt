-- ===== src/Frame/ProjectBox.antt =====
-- `ProjectComboBox`: the projects of the node and the registered ones, and the dialog for a new one.
use scrapydweb.Base.{
  Bool, true, false, List, [], ◌∷◌, ◌++◌, Text, text, truthy, map, or_text, includes_text,
  if◌then◌else◌,
}
use scrapydweb.Js.View.{Shown, when, concat_map}
use scrapydweb.Js.View
use scrapydweb.Api.Types.{Project}
use scrapydweb.Projects.Names.{project_names}

pub record BoxState : Type 0 where
  pub is_open : Bool
  pub search : Text
  pub creating : Bool

pub data Event : Type 0 where
  open_change : Bool → Event
  type_search : Text → Event
  choose : Text → Event
  create close_dialog : Event
  saved : Project → Event

pub data Effect : Type 0 where
  changed : Text → Effect
  refetch : Effect

unfoldable pub handle : Event → BoxState → BoxState × List Effect
handle (open_change b) s = (record s { is_open = b }, [])
handle (type_search t) s = (record s { search = t }, [])
handle (choose name) s = (record s { is_open = false }, changed name ∷ [])
handle create s = (record s { is_open = false; creating = true }, [])
handle close_dialog s = (record s { creating = false }, [])
handle (saved p) s = (s, refetch ∷ changed p.name ∷ [])

-- `localeCompare` is a parameter.
module _ (before : Text → Text → Bool) where
  -- the names, the registered ones in front before they are sorted
  unfoldable pub names : List Project → List Text → List Text
  unfolding project_names
  names registered scrapyd = project_names before (map (λ (p : Project). p.name) registered) scrapyd

  unfoldable pub box_view : List Project → List Text → Text → BoxState → List (Shown Event)
  unfolding names includes_text
  box_view registered scrapyd value s =
      View.says (or_text value (text "pick a project…"))
      ∷ View.input s.search true type_search
      ∷ (concat_map
            (λ (name : Text).
              View.button name true (choose name)
              ∷ when (includes_text (map (λ (p : Project). p.name) registered) name)
                  (View.badge (text "registered") ∷ []))
            (names registered scrapyd)
          ++ View.button
              (text "Create a project"
                ++ (if truthy s.search then text " \"" ++ (s.search ++ text "\"") else []))
              true create
            ∷ [])

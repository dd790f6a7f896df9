-- ===== src/Schedule/Cards/KeyBox.antt =====
-- `SettingKeyCombobox`: what it offers for a row, and what it picks.
use scrapydweb.Base.{
  Bool, true, false, not, ◌&&◌, Option, none, some, List, [], ◌∷◌, ◌++◌, Text, text, or_text,
  filter, length, ◌==◌,
}
use scrapydweb.Js.View.{Shown, when, concat_map}
use scrapydweb.Js.View
use scrapydweb.Catalogue.{ScrapySettingDef, SettingType, bool, int, float, str, enum}
use scrapydweb.Schedule.Cards.{custom_key, custom_valid, listed_settings}

pub record BoxState : Type 0 where
  pub is_open : Bool
  pub search : Text

pub data Event : Type 0 where
  open_change : Bool → Event
  type_search : Text → Event
  pick : Text → Event

-- the handlers, with the key that is handed to the row
unfoldable pub handle : Event → BoxState → BoxState × Option Text
handle (open_change b) s = (record s { is_open = b }, none)
handle (type_search t) s = (record s { search = t }, none)
handle (pick k) s = (record { is_open = false; search = [] }, some k)

abbrev pub type_text : SettingType → Text
type_text bool = text "bool"
type_text int = text "int"
type_text float = text "float"
type_text str = text "str"
type_text enum = text "enum"

unfoldable pub setting_item : ScrapySettingDef → List (Shown Event)
setting_item d =
    View.button d.key true (pick d.key)
    ∷ View.says d.description
    ∷ View.badge (type_text d.type)
    ∷ []

-- `toUpperCase`, and `fits search value`, by which the list that is searched keeps an item, are
-- parameters.
module _ (to_upper : Text → Text) (fits : Text → Text → Bool) where
  -- the items, for the row's key and the keys that are used
  unfoldable pub items : (value : Text) → (used : List Text) → (search : Text) → List (Shown Event)
  unfolding custom_key custom_valid listed_settings setting_item filter
  items value used search =
      let custom = custom_key to_upper search in
      when (custom_valid to_upper search used && fits search (text "custom-" ++ custom))
        (View.button (text "use custom key " ++ custom) true (pick custom) ∷ [])
      ++ concat_map setting_item
          (filter (λ (d : ScrapySettingDef). fits search d.key) (listed_settings value used))

  unfoldable pub box_view : (value : Text) → (used : List Text) → BoxState → List (Shown Event)
  unfolding items custom_valid
  box_view value used s =
      View.says (or_text value (text "pick a setting…"))
      ∷ View.input s.search true type_search
      ∷ (items value used s.search
          ++ when
              (length (items value used s.search) == 0 && not (custom_valid to_upper s.search used))
              (View.says (text "no matching setting") ∷ []))

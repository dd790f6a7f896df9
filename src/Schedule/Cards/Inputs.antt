-- ===== src/Schedule/Cards/Inputs.antt =====
-- The inputs of the cards: a setting's value, the rows of settings and of arguments.
use scrapydweb.Base.{
  ℕ, suc, true, Option, none, some, List, [], ◌∷◌, ◌++◌, map, Text, text, or_text, length, ◌==◌,
}
use scrapydweb.Js.View.{Shown, when, when_some}
use scrapydweb.Js.View
use scrapydweb.Catalogue.{ScrapySettingDef, SettingType, bool, int, float, str, enum, Preset}
use scrapydweb.Catalogue.Keys.{settings_by_key}
use scrapydweb.Payload.{Row}
use scrapydweb.Schedule.Cards.{used_keys, listed_settings}

pub data Event : Type 0 where
  set_key set_value : ℕ → Text → Event
  remove : ℕ → Event
  append : Event

abbrev default_of : ScrapySettingDef → Text
default_of d = text "default: " ++ d.default

abbrev typed : ℕ → Text → ScrapySettingDef → List (Shown Event)
typed i value d =
    View.says (default_of d)
    ∷ View.input value true (set_value i)
    ∷ map (λ (p : Preset). View.button p.label true (set_value i p.value)) d.presets

abbrev control_by : SettingType → ℕ → Text → ScrapySettingDef → List (Shown Event)
control_by bool i value d =
    View.says (default_of d)
    ∷ View.choice value (text "True" ∷ text "False" ∷ []) true (set_value i)
    ∷ []
control_by enum i value d =
    View.says (default_of d) ∷ View.choice value d.options true (set_value i) ∷ []
control_by int i value d = typed i value d
control_by float i value d = typed i value d
control_by str i value d = typed i value d

-- `SettingValueInput`, for what `SETTINGS_BY_KEY` has at the row's key
unfoldable pub value_input : ℕ → Text → Option ScrapySettingDef → List (Shown Event)
value_input i value none = View.says (text "value") ∷ View.input value true (set_value i) ∷ []
value_input i value (some d) = control_by d.type i value d

abbrev described : ScrapySettingDef → List (Shown Event)
described d =
    View.says (d.description ++ (text " · default: " ++ or_text d.default (text "—"))) ∷ []

-- the rows of `SettingsCard`, from row `i` on
unfoldable pub setting_views : List Text → ℕ → List Row → List (Shown Event)
unfolding value_input settings_by_key listed_settings
setting_views used i [] = []
setting_views used i (r ∷ rows) =
    View.choice (or_text r.key (text "pick a setting…"))
      (map (λ (d : ScrapySettingDef). d.key) (listed_settings r.key used)) true (set_key i)
    ∷ (value_input i r.value (settings_by_key r.key)
        ++ View.button (text "remove") true (remove i)
          ∷ (when_some (settings_by_key r.key) described ++ setting_views used (suc i) rows))

unfoldable pub settings_card : List Row → List (Shown Event)
unfolding setting_views used_keys
settings_card rows =
    View.says (text "Scrapy settings")
    ∷ View.says (text "override per run — anything not listed keeps the project default")
    ∷ (when (length rows == 0)
          (View.says (text "No overrides. The spider runs with its project settings.") ∷ [])
        ++ (setting_views (used_keys rows) 0 rows
            ++ View.button (text "Add setting") true append ∷ []))

-- the rows of `ArgsCard`
unfoldable pub arg_views : ℕ → List Row → List (Shown Event)
arg_views i [] = []
arg_views i (r ∷ rows) =
    View.input r.key true (set_key i)
    ∷ View.input r.value true (set_value i)
    ∷ View.button (text "remove") true (remove i)
    ∷ arg_views (suc i) rows

unfoldable pub args_card : List Row → List (Shown Event)
unfolding arg_views
args_card rows =
    View.says (text "Spider arguments")
    ∷ View.says (text "passed to the spider's __init__ (-a key=value)")
    ∷ (when (length rows == 0) (View.says (text "No arguments.") ∷ [])
        ++ (arg_views 0 rows ++ View.button (text "Add argument") true append ∷ []))

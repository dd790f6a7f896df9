-- ===== src/Schedule/Cards.antt =====
-- The cards of the Run Spider form under frontend/src/components/schedule: the rows of settings and
-- arguments, the combobox of a setting's key, and the target.
pub mod Keys
pub mod Inputs
pub mod KeyBox
pub mod Offered
pub mod Target
use scrapydweb.Base.{
  ℕ, Bool, true, false, not, ◌&&◌, ◌||◌, List, [], ◌∷◌, ◌++◌, map, Text, truthy, same,
  includes_text, any, filter, map_at, remove_at, if◌then◌else◌,
}
use scrapydweb.Js.Strings.{trim}
use scrapydweb.Catalogue.{ScrapySettingDef}
use scrapydweb.Catalogue.Entries.{scrapy_settings}
use scrapydweb.Catalogue.Keys.{setting_key_re}
use scrapydweb.Payload.{Row, ScheduleForm, latest}

-- `new Set(rows.map((r) => r.key).filter(Boolean))`
unfoldable pub used_keys : List Row → List Text
unfolding filter
used_keys rows = filter truthy (map (λ (r : Row). r.key) rows)

-- `toUpperCase` is a parameter.
module _ (to_upper : Text → Text) where
  -- `custom`, and whether it is offered
  unfoldable pub custom_key : Text → Text
  unfolding trim
  custom_key search = to_upper (trim search)

  unfoldable pub custom_valid : Text → List Text → Bool
  unfolding custom_key setting_key_re any includes_text
  custom_valid search used =
      setting_key_re (custom_key search)
      && not (any (λ (s : ScrapySettingDef). same s.key (custom_key search)) scrapy_settings)
      && not (includes_text used (custom_key search))

-- whether a key of the catalogue is listed, for the value that the row has
unfoldable pub is_listed : Text → List Text → Text → Bool
unfolding includes_text
is_listed value used k = same k value || not (includes_text used k)

unfoldable pub listed_settings : Text → List Text → List ScrapySettingDef
unfolding filter is_listed
listed_settings value used =
    filter (λ (s : ScrapySettingDef). is_listed value used s.key) scrapy_settings

-- picking a key clears the row's value
unfoldable pub pick_key : ℕ → Text → List Row → List Row
pick_key i k rows = map_at i (λ r. record { key = k; value = [] }) rows

unfoldable pub append_row : List Row → List Row
append_row rows = rows ++ record { key = []; value = [] } ∷ []

unfoldable pub remove_row : ℕ → List Row → List Row
remove_row i rows = remove_at i rows

-- `TargetCard`: another project has another version and other spiders
unfoldable pub set_project : Text → ScheduleForm → ScheduleForm
set_project p v = record v { project = p; version = latest; spider = [] }

-- the values of the two selects: one that is prefilled stays selectable
abbrev pub prefilled : Text → List Text → List Text
prefilled v options = if truthy v && not (includes_text options v) then v ∷ [] else []

unfoldable pub version_options : Text → List Text → List Text
unfolding same includes_text
version_options v versions =
    latest ∷ ((if same v latest then [] else prefilled v versions) ++ versions)

unfoldable pub spider_options : Text → List Text → List Text
unfolding includes_text
spider_options s spiders = prefilled s spiders ++ spiders

-- ===== src/Schedule/Validate.antt =====
-- The form's schema: the rules on fields and rows, and `superRefine` with its seen keys.
pub mod Keeps
use scrapydweb.Base.{
  ℕ, zero, suc, ◌≡◌, Bool, true, false, not, ◌&&◌, ◌||◌, List, [], ◌∷◌, ◌++◌, Option, none, some,
  Text, text, truthy, same, includes_text, all, length, leb, ltb, ◌==◌, if◌then◌else◌,
}
use scrapydweb.Catalogue.{SettingType, bool, int, float, str, enum, ScrapySettingDef}
use scrapydweb.Catalogue.Keys.{
  setting_key_re, arg_key_re, reserved_arg_keys, settings_by_key, is_integer_text,
}
use scrapydweb.Payload.{Row, ScheduleForm}

pub data Part : Type 0 where
  key value : Part

-- `path: ["settings", i, "key"]` with its message
pub data Issue : Type 0 where
  duplicate_setting integer_required number_required true_or_false : ℕ → Part → Issue
  duplicate_argument reserved_name : ℕ → Part → Issue

abbrev when : Bool → Issue → List Issue
when true i = i ∷ []
when false i = []

unfoldable pub setting_row : Row → Bool
setting_row r = setting_key_re r.key && truthy r.value

unfoldable pub arg_row : Row → Bool
arg_row r = arg_key_re r.key && truthy r.value

-- the object's own rules
unfoldable pub fields_fit : ScheduleForm → Bool
fields_fit v =
    truthy v.project
    && truthy v.spider
    && ltb 0 (length v.nodes)
    && all setting_row v.settings
    && all arg_row v.args

abbrev pub is_empty : List Issue → Bool
is_empty [] = true
is_empty (i ∷ is) = false

unfoldable pub arg_issues : List Text → ℕ → List Row → List Issue
arg_issues seen i [] = []
arg_issues seen i (r ∷ rows) =
    when (includes_text seen r.key) (duplicate_argument i key)
    ++ (when (includes_text reserved_arg_keys r.key) (reserved_name i key)
        ++ arg_issues (r.key ∷ seen) (suc i) rows)

-- `Number.isNaN(Number(s))` is the language's parse of a float, taken as the test `is_nan`.
module _ (is_nan : Text → Bool) where
  unfoldable pub type_issues : SettingType → ℕ → Text → List Issue
  type_issues int i s = when (not (is_integer_text s)) (integer_required i value)
  type_issues float i s = when (is_nan s) (number_required i value)
  type_issues bool i s =
      when (not (same s (text "True")) && not (same s (text "False"))) (true_or_false i value)
  type_issues str i s = []
  type_issues enum i s = []

  -- `def?.type`: a key outside the catalogue has no type
  unfoldable pub def_issues : Option ScrapySettingDef → ℕ → Text → List Issue
  def_issues none i s = []
  def_issues (some d) i s = type_issues d.type i s

  -- `v.settings.forEach((s, i) => …)`, from row `i` on, with the keys seen before it
  unfoldable pub setting_issues : List Text → ℕ → List Row → List Issue
  setting_issues seen i [] = []
  setting_issues seen i (r ∷ rows) =
      when (includes_text seen r.key) (duplicate_setting i key)
      ++ (def_issues (settings_by_key r.key) i r.value
          ++ setting_issues (r.key ∷ seen) (suc i) rows)

  unfoldable pub refine_issues : ScheduleForm → List Issue
  refine_issues v = setting_issues [] 0 v.settings ++ arg_issues [] 0 v.args

  -- The form can be submitted when no rule and no refinement has an issue.
  unfoldable pub is_valid : ScheduleForm → Bool
  is_valid v = fields_fit v && is_empty (refine_issues v)

-- ===== src/Catalogue/Keys.antt =====
-- `SETTING_KEY_RE`, `ARG_KEY_RE`, `RESERVED_ARG_KEYS` and `SETTINGS_BY_KEY`.
use scrapydweb.Base.{
  ℕ, ◌≡◌, refl, Bool, true, false, ◌&&◌, ◌||◌, List, [], ◌∷◌, Option, Text, text, same, all, find,
  All, all-All, length, leb, ◌==◌,
}
use scrapydweb.Js.Decimal.{is_digit}
use scrapydweb.Catalogue.{ScrapySettingDef}
use scrapydweb.Catalogue.Entries.{scrapy_settings}

unfoldable pub is_upper : ℕ → Bool
is_upper c = leb b'A' c && leb c b'Z'

unfoldable pub is_lower : ℕ → Bool
is_lower c = leb b'a' c && leb c b'z'

-- ^[A-Z][A-Z0-9_]{0,30}$
unfoldable pub setting_key_re : Text → Bool
unfolding is_upper is_digit
setting_key_re [] = false
setting_key_re (c ∷ s) =
    is_upper c && leb (length s) 30 && all (λ d. is_upper d || is_digit d || (d == b'_')) s

-- ^[A-Za-z_][A-Za-z0-9_]*$
unfoldable pub arg_key_re : Text → Bool
unfolding is_upper is_lower is_digit
arg_key_re [] = false
arg_key_re (c ∷ s) =
    (is_upper c || is_lower c || (c == b'_'))
    && all (λ d. is_upper d || is_lower d || is_digit d || (d == b'_')) s

unfoldable pub reserved_arg_keys : List Text
reserved_arg_keys =
    text "project"
    ∷ text "_version"
    ∷ text "spider"
    ∷ text "jobid"
    ∷ text "setting"
    ∷ text "filename"
    ∷ text "checked_amount"
    ∷ []

-- `SETTINGS_BY_KEY.get(key)`
unfoldable pub settings_by_key : Text → Option ScrapySettingDef
settings_by_key key = find (λ d. same d.key key) scrapy_settings

-- ^-?\d+$
unfoldable pub is_integer_text : Text → Bool
unfolding is_digit
is_integer_text [] = false
is_integer_text (c ∷ []) = is_digit c
is_integer_text (c ∷ d ∷ s) = ((c == b'-') || is_digit c) && all is_digit (d ∷ s)

catalogue_check : all (λ (d : ScrapySettingDef). setting_key_re d.key) scrapy_settings ≡ true
unfolding all scrapy_settings setting_key_re
catalogue_check = refl

-- The key of every entry of the catalogue has the form of a setting's key.
pub scrapy_settings_lem :
    All (λ (d : ScrapySettingDef). setting_key_re d.key ≡ true) scrapy_settings
scrapy_settings_lem = all-All _ scrapy_settings catalogue_check

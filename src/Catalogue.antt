-- ===== src/Catalogue.antt =====
-- frontend/src/lib/scrapy-settings.ts: the catalogue of Scrapy settings and the rules for keys.
pub mod Entries
pub mod Keys
use scrapydweb.Base.{Text, List}

pub data SettingType : Type 0 where
  bool int float str enum : SettingType

pub record Preset : Type 0 where
  pub label : Text
  pub value : Text

-- An absent list of options or presets is the empty list.
pub record ScrapySettingDef : Type 0 where
  pub key : Text
  pub type : SettingType
  pub default : Text
  pub description : Text
  pub options : List Text
  pub presets : List Preset

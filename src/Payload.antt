-- ===== src/Payload.antt =====
-- frontend/src/lib/schedule-payload.ts: the values of the Run Spider form, and their serialization.
pub mod Sanitize
pub mod Form
pub mod Shell
pub mod Curl
use scrapydweb.Base.{ℕ, Text, text, List, Option}

-- `SettingRow` and `ArgRow`, which have one shape
pub record Row : Type 0 where
  pub key : Text
  pub value : Text

pub data Mode : Type 0 where
  now cron : Mode

pub data Action : Type 0 where
  add_fire add add_pause : Action

-- Nodes are numbered from 1; `task_id` is absent or 0 when a task is created.
pub record ScheduleForm : Type 0 where
  pub project : Text
  pub version : Text
  pub spider : Text
  pub jobid : Text
  pub nodes : List ℕ
  pub settings : List Row
  pub args : List Row
  pub mode : Mode
  pub name : Text
  pub action : Action
  pub task_id : Option ℕ
  pub year : Text
  pub month : Text
  pub day : Text
  pub week : Text
  pub day_of_week : Text
  pub hour : Text
  pub minute : Text
  pub second : Text

unfoldable pub latest : Text
latest = text "default: the latest version"

unfoldable pub action_text : Action → Text
action_text add_fire = text "add_fire"
action_text add = text "add"
action_text add_pause = text "add_pause"

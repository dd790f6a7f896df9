-- ===== src/Api/Types.antt =====
-- The records of the JSON API that the modelled pages read.
use scrapydweb.Base.{ℕ, Text, List, Option, Bool, Obj}
use scrapydweb.Payload.{Row}

pub record NodeInfo : Type 0 where
  pub node : ℕ
  pub server : Text
  pub group : Text
  pub public_url : Text

-- "0", "1" and "2"
pub data JobStatus : Type 0 where
  pending running finished : JobStatus

pub record JobRow : Type 0 where
  pub id : ℕ
  pub project : Text
  pub spider : Text
  pub job : Text
  pub status : JobStatus
  pub pid : Option ℕ
  pub pages : Option ℕ
  pub items : Option ℕ
  pub version : Option Text
  pub args : Obj Text
  pub finish_reason : Option Text
  pub start : Option Text
  pub finish : Option Text
  pub runtime : Option Text
  pub update_time : Option Text
  pub href_log : Option Text
  pub href_items : Option Text
  pub url_stats : Text
  pub url_log : Text
  pub url_stop : Text
  pub url_start : Text

pub data TaskStatus : Type 0 where
  running paused finished : TaskStatus

pub record TaskRow : Type 0 where
  pub id : ℕ
  pub name : Text
  pub project : Text
  pub version : Text
  pub spider : Text
  pub jobid : Text
  pub trigger : Text
  pub create_time : Text
  pub update_time : Text
  pub year : Text
  pub month : Text
  pub day : Text
  pub week : Text
  pub day_of_week : Text
  pub hour : Text
  pub minute : Text
  pub second : Text
  pub start_date : Option Text
  pub end_date : Option Text
  pub timezone : Option Text
  pub settings_arguments : Text
  pub selected_nodes : Text
  pub status : TaskStatus
  pub next_run_time : Option Text
  pub run_times : ℕ
  pub fail_times : ℕ
  pub prev_run_result : Text

pub record JobGroup : Type 0 where
  pub id : ℕ
  pub name : Text
  pub project : Text
  pub version : Text
  pub spiders : List Text
  pub nodes : List ℕ
  pub settings : List Row
  pub args : Obj Text
  pub notify_enabled : Bool
  pub notify_channels : List Text
  pub fire_path : Text
  pub created_at : Option Text
  pub updated_at : Option Text

pub data ThresholdAction : Type 0 where
  alert stop forcestop : ThresholdAction

pub record AlertThresholdSpec : Type 0 where
  pub threshold : ℕ
  pub action : Option ThresholdAction

pub record AlertRule : Type 0 where
  pub id : ℕ
  pub name : Text
  pub enabled : Bool
  pub project_pattern : Text
  pub spider_pattern : Text
  pub thresholds : Obj AlertThresholdSpec
  pub on_finished : Option Bool
  pub on_running_interval : Option ℕ
  pub channels : Option (List Text)

pub data DeploySource : Type 0 where
  manual folder git webhook : DeploySource

pub record Project : Type 0 where
  pub id : ℕ
  pub name : Text
  pub description : Text
  pub deploy_source : DeploySource
  pub default_nodes : List ℕ
  pub repo_url : Text
  pub ref : Text
  pub has_token : Bool
  pub enabled : Bool
  pub webhook_secret : Option Text
  pub webhook_path : Option Text
  pub created_at : Option Text
  pub updated_at : Option Text

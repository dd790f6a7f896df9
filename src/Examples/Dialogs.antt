-- ===== src/Examples/Dialogs.antt =====
-- The dialogs of the groups and of the projects, and the fields of the settings.
use scrapydweb.Base.{ℕ, ◌≡◌, true, false, some, none, List, [], ◌∷◌, Text, text, All}
use scrapydweb.Js.View.{Raises}
use scrapydweb.Api.Types.{JobGroup, Project, webhook}
use scrapydweb.Groups.Dialogs.{fire_call}
use scrapydweb.Groups.Run.{
  RunState, RunEvent, edit, type_key, type_value, open_for, fire, settled, answered, mount_run,
  handle_run, run_dialog, fired, fired-open_for,
}
use scrapydweb.Projects.Dialog.{DialogState, open_project}
use scrapydweb.Projects.Dialog.View.{IsChecked, dialog_view, dialog_view-IsChecked}
use scrapydweb.Settings.Draft.{bool, Draft}
use scrapydweb.Settings.Controls.{Field, bool_type, db, restart}
use scrapydweb.Settings.Page.{Group, group_fields}
use scrapydweb.Settings.Page.Owned.{Keeps, group_fields-Keeps}

abbrev group_of : ℕ → Text → JobGroup
group_of id name = record {
  id = id;
  name = name;
  project = text "demo";
  version = [];
  spiders = text "books" ∷ [];
  nodes = 1 ∷ [];
  settings = [];
  args = [];
  notify_enabled = false;
  notify_channels = [];
  fire_path = text "/api/groups/1/fire";
  created_at = none;
  updated_at = none;
}

-- the dialog after a key and a value were typed for the first group
abbrev typed_for_first : RunState
typed_for_first =
    run_dialog
      (open_for (group_of 1 (text "first"))
        ∷ edit (type_key 0 (text "crawl_item_ids"))
        ∷ edit (type_value 0 (text "id-001"))
        ∷ [])
      mount_run

abbrev fired_first : List RunEvent
fired_first = fire ∷ settled (answered 1 1) ∷ []

fired-open_for_example :
    fired
      (handle_run (open_for (group_of 2 (text "second"))) (run_dialog fired_first typed_for_first))
    ≡ some (fire_call 2 typed_for_first.rows)
fired-open_for_example =
    fired-open_for typed_for_first fired_first (group_of 2 (text "second")) (tt, (tt, tt))

abbrev hooked : Project
hooked = record {
  id = 2;
  name = text "demo";
  description = [];
  deploy_source = webhook;
  repo_url = text "https://example.com/demo";
  ref = text "main";
  default_nodes = 1 ∷ [];
  enabled = true;
  has_token = true;
  webhook_path = some (text "/api/deploy/webhook/2");
  webhook_secret = some (text "s3cret");
  created_at = none;
  updated_at = none;
}

abbrev opened : DialogState
opened = record {
  secret = some (text "s3cret");
  webhook_path = some (text "/api/deploy/webhook/2");
  error = [];
  is_open = true;
}

abbrev origin : Text
origin = text "https://scrapydweb.example"

dialog_view-IsChecked_example :
    All
      (Raises (IsChecked (some hooked) (open_project hooked) false))
      (dialog_view origin (some hooked) (open_project hooked) opened false)
dialog_view-IsChecked_example =
    dialog_view-IsChecked origin (some hooked) (open_project hooked) opened false

abbrev switch_field : Field
switch_field = record {
  key = text "ENABLE_MONITOR";
  type = bool_type;
  label = text "Enable monitor";
  help = [];
  default = bool false;
  value = bool true;
  source = db;
  apply = restart;
  secret = false;
  nullable = false;
  choices = none;
  min = none;
  textarea = false;
}

abbrev monitor_tab : Group
monitor_tab = record { id = text "monitor"; label = text "Alerts"; fields = switch_field ∷ [] }

abbrev unsaved : Draft
unsaved = record { draft = (text "DEBUG", bool true) ∷ []; errors = [] }

abbrev as_is : Text → Text
as_is t = t

group_fields-Keeps_example :
    All
      (Raises (Keeps monitor_tab unsaved))
      (group_fields as_is as_is as_is as_is unsaved monitor_tab)
group_fields-Keeps_example = group_fields-Keeps as_is as_is as_is as_is unsaved monitor_tab

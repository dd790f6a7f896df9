-- ===== src/Groups/Form.antt =====
-- The group form: its schema, its empty values, the record that is saved and the form of a saved one.
pub mod RoundTrip
use scrapydweb.Base.{
  ℕ, ◌≡◌, Bool, true, false, not, ◌&&◌, List, [], ◌∷◌, ◌++◌, map, Option, none, some, Text, text,
  truthy, or_text, same, includes_text, filter, length, ltb, ◌==◌, Obj, if◌then◌else◌,
}
use scrapydweb.Js.Strings.{trim}
use scrapydweb.Api.Types.{JobGroup}
use scrapydweb.Payload.{Row, latest}
use scrapydweb.Payload.Form.{is_filled, args_object}

pub record GroupForm : Type 0 where
  pub name : Text
  pub project : Text
  pub version : Text
  pub spiders : List Text
  pub nodes : List ℕ
  pub settings : List Row
  pub args : List Row
  pub notify_enabled : Bool
  pub notify_channels : List Text

-- the schema: what `form.handleSubmit` lets through
unfoldable pub is_valid : GroupForm → Bool
is_valid v = truthy v.name && truthy v.project && ltb 0 (length v.spiders) && ltb 0 (length v.nodes)

-- `EMPTY(node)`
unfoldable pub empty_form : ℕ → GroupForm
empty_form node = record {
  name = [];
  project = [];
  version = latest;
  spiders = [];
  nodes = node ∷ [];
  settings = [];
  args = [];
  notify_enabled = false;
  notify_channels = [];
}

-- the body of the request, field by field
pub record GroupRecord : Type 0 where
  pub name : Text
  pub project : Text
  pub version : Text
  pub spiders : List Text
  pub nodes : List ℕ
  pub settings : List Row
  pub args : Obj Text
  pub notify_enabled : Bool
  pub notify_channels : List Text

unfoldable pub to_record : GroupForm → GroupRecord
to_record v = record {
  name = trim v.name;
  project = v.project;
  version = if same v.version latest then [] else v.version;
  spiders = v.spiders;
  nodes = v.nodes;
  settings = filter is_filled v.settings;
  args = args_object v.args;
  notify_enabled = v.notify_enabled;
  notify_channels = v.notify_channels;
}

abbrev row : Text × Text → Row
row (k, v) = record { key = k; value = v }

abbrev nodes_or : ℕ → List ℕ → List ℕ
nodes_or node [] = node ∷ []
nodes_or node (n ∷ ns) = n ∷ ns

-- the values that `edit` resets the form to
unfoldable pub edit_form : ℕ → JobGroup → GroupForm
edit_form node g = record {
  name = g.name;
  project = g.project;
  version = or_text g.version latest;
  spiders = g.spiders;
  nodes = nodes_or node g.nodes;
  settings = g.settings;
  args = map row g.args;
  notify_enabled = g.notify_enabled;
  notify_channels = g.notify_channels;
}

-- `toggle(sp)` on the selected spiders
unfoldable pub toggle : Text → List Text → List Text
toggle sp selected =
    if includes_text selected sp
    then filter (λ s. not (same s sp)) selected
    else selected ++ sp ∷ []

-- `allSelected` compares the numbers only
unfoldable pub all_selected : List Text → List Text → Bool
all_selected spiders selected = ltb 0 (length spiders) && (length selected == length spiders)

-- "Select all" or "Clear all"
unfoldable pub toggle_all : List Text → List Text → List Text
toggle_all spiders selected = if all_selected spiders selected then [] else spiders

-- Choosing a project or a version clears what depends on it.
unfoldable pub set_project : Text → GroupForm → GroupForm
set_project p v = record v { project = p; version = latest; spiders = [] }

unfoldable pub set_version : Text → GroupForm → GroupForm
set_version ver v = record v { version = ver; spiders = [] }

-- a channel's checkbox
unfoldable pub set_channel : Text → Bool → List Text → List Text
set_channel ch true channels = channels ++ ch ∷ []
set_channel ch false channels = filter (λ c. not (same c ch)) channels

-- ===== src/Groups/Form/RoundTrip.antt =====
-- Editing a saved group gives back the form that was saved; toggling a spider changes it alone.
use scrapydweb.Base.{
  ℕ, ◌≡◌, true, not, List, [], ◌∷◌, map, Option, some, none, Bool, Text, text, leb, ltb, ◌==◌, ◌&&◌,
  ◌||◌, length, truthy, same, same_iff, includes_text, includes_text-append, includes_text-drop,
  filter, if◌then◌else◌, arith,
}
use scrapydweb.Js.Strings.{trim}
use scrapydweb.Catalogue.Keys.{arg_key_re}
use scrapydweb.Api.Types.{JobGroup}
use scrapydweb.Payload.Form.{is_filled, pair, args_object}
use scrapydweb.Groups.Form.{GroupForm, GroupRecord, toggle}

-- `sorted({…})` of the numbers
unfoldable pub insert_node : ℕ → List ℕ → List ℕ
insert_node n [] = n ∷ []
insert_node n (m ∷ ms) =
    let rest = insert_node n ms in
    if n == m then m ∷ ms else if ltb n m then n ∷ m ∷ ms else m ∷ rest

unfoldable pub sort_nodes : List ℕ → List ℕ
unfolding insert_node
sort_nodes [] = []
sort_nodes (n ∷ ns) = insert_node n (sort_nodes ns)

abbrev one_or : List ℕ → List ℕ
one_or [] = 1 ∷ []
one_or (n ∷ ns) = n ∷ ns

-- the nodes that are kept: those from 1 up, in order and each once, and node 1 when none is left
abbrev pub kept_nodes : List ℕ → List ℕ
kept_nodes ns = one_or (sort_nodes (filter (λ n. leb 1 n) ns))

abbrev pub is_channel : Text → Bool
is_channel c = same c (text "slack") || same c (text "telegram") || same c (text "email")

abbrev pub is_named : Text → Bool
is_named s = truthy (trim s)

-- whether `_validate` accepts a record
abbrev accepts : GroupRecord → Bool
accepts r = is_named r.name && is_named r.project && not (length r.spiders == 0)

abbrev pub kept_fields : ℕ → Text → Option Text → Option Text → GroupRecord → JobGroup
kept_fields id fire_path created_at updated_at r = record {
  id = id;
  name = trim r.name;
  project = trim r.project;
  version = trim r.version;
  spiders = filter is_named r.spiders;
  nodes = kept_nodes r.nodes;
  settings = filter is_filled r.settings;
  args = filter (λ (p : Text × Text). arg_key_re p.0) r.args;
  notify_enabled = r.notify_enabled;
  notify_channels = filter is_channel r.notify_channels;
  fire_path = fire_path;
  created_at = created_at;
  updated_at = updated_at;
}

-- What the backend keeps for a record (`_validate` and `group_dict` of scrapydweb/routers/groups.py), with
-- an id: it trims the texts, sorts the nodes, and drops blank spiders, settings without a key or a value,
-- arguments whose key is no name, and channels that it does not know.
unfoldable pub kept_group : ℕ → Text → Option Text → Option Text → GroupRecord → Option JobGroup
kept_group id fire_path created_at updated_at r =
    if accepts r then some (kept_fields id fire_path created_at updated_at r) else none

-- A form that is saved as it is: trimmed texts, a name, a project, a spider and a version, nodes in order,
-- filled rows, and argument keys that are names and differ.
pub record IsNormal (v : GroupForm) : Type 0 where
  pub trimmed_name : trim v.name ≡ v.name
  pub trimmed_project : trim v.project ≡ v.project
  pub trimmed_version : trim v.version ≡ v.version
  pub accepted :
      (truthy v.name && truthy v.project && not (length v.spiders == 0) && truthy v.version) ≡ true
  pub spiders_named : filter is_named v.spiders ≡ v.spiders
  pub nodes_ordered : kept_nodes v.nodes ≡ v.nodes
  pub filled : filter is_filled v.settings ≡ v.settings
  pub distinct : args_object v.args ≡ map pair v.args
  pub keys_named : filter (λ (p : Text × Text). arg_key_re p.0) (map pair v.args) ≡ map pair v.args
  pub channels_known : filter is_channel v.notify_channels ≡ v.notify_channels

-- Toggling a spider changes whether that spider is selected, and no other.
pub includes_text-toggle :
    (sp : Text) (selected : List Text) (k : Text)
    → includes_text (toggle sp selected) k
      ≡ (if same sp k then not (includes_text selected k) else includes_text selected k)
unfolding toggle
includes_text-toggle sp selected k =
    ground
      (arith, includes_text-drop sp selected k, includes_text-append selected sp k, same_iff sp k)

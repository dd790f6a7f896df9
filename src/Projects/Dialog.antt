-- ===== src/Projects/Dialog.antt =====
-- `ProjectDialog`: the form of a registered project, when it can be saved, what is sent, what a reply does.
pub mod View
use scrapydweb.Base.{
  ℕ, ◌≡◌, ◌⊎◌, inl, inr, refl, sym, Bool, true, false, not, ◌&&◌, ◌||◌, Option, none, some, or_else,
  List, [], ◌∷◌, Text, text, truthy, length, ltb, if◌then◌else◌,
}
use scrapydweb.Api.Types.{Project, DeploySource, manual, folder, git, webhook}

pub record ProjectForm : Type 0 where
  pub name : Text
  pub description : Text
  pub deploy_source : DeploySource
  pub repo_url : Text
  pub ref : Text
  pub access_token : Text
  pub nodes : List ℕ

unfoldable pub open_project : Project → ProjectForm
open_project p = record {
  name = p.name;
  description = p.description;
  deploy_source = p.deploy_source;
  repo_url = p.repo_url;
  ref = p.ref;
  access_token = [];
  nodes = p.default_nodes;
}

unfoldable pub new_project : Option Text → ProjectForm
new_project default_name = record {
  name = or_else default_name [];
  description = [];
  deploy_source = manual;
  repo_url = [];
  ref = text "main";
  access_token = [];
  nodes = 1 ∷ [];
}

unfoldable pub needs_repo : DeploySource → Bool
needs_repo git = true
needs_repo webhook = true
needs_repo manual = false
needs_repo folder = false

unfoldable pub is_valid : ProjectForm → Bool
unfolding needs_repo
is_valid f =
    truthy f.name
    && ltb 0 (length f.nodes)
    && (not (needs_repo f.deploy_source) || truthy f.repo_url)

-- the body; `none` is a key that is not set
pub record ProjectBody : Type 0 where
  pub name : Text
  pub description : Text
  pub deploy_source : DeploySource
  pub nodes : List ℕ
  pub ref : Text
  pub repo_url : Text
  pub access_token : Option Text
  pub rotate_secret : Option Bool

unfoldable pub project_body : Bool → ProjectForm → ProjectBody
unfolding needs_repo
project_body rotate f = record {
  name = f.name;
  description = f.description;
  deploy_source = f.deploy_source;
  nodes = f.nodes;
  ref = f.ref;
  repo_url = if needs_repo f.deploy_source then f.repo_url else [];
  access_token = if truthy f.access_token then some f.access_token else none;
  rotate_secret = if rotate then some true else none;
}

-- the states `secret`, `webhookPath`, `error` and whether the dialog is open
pub record DialogState : Type 0 where
  pub secret : Option Text
  pub webhook_path : Option Text
  pub error : Text
  pub is_open : Bool

-- the status "ok" with a project, another answer with its message, or `api` throws
pub data Reply : Type 0 where
  ok : Project → Reply
  refused : (message : Option Text) → Reply
  broken : Reply

unfoldable pub after_save : Bool → Reply → DialogState → DialogState
after_save rotate (ok p) s = record {
  secret = p.webhook_secret;
  webhook_path = p.webhook_path;
  error = [];
  is_open = rotate;
}
after_save rotate (refused m) s = record s { error = or_else m (text "Save failed") }
after_save rotate broken s = record s { error = [] }

-- A project that the backend keeps: it has a repository only when its source needs one.
abbrev pub IsKept : Project → Type 0
IsKept p = (needs_repo p.deploy_source ≡ true) ⊎ (p.repo_url ≡ [])

repo-back : (b : Bool) (url : Text) → (b ≡ true) ⊎ (url ≡ []) → (if b then url else []) ≡ url
repo-back true url h = refl
repo-back false url (inl e) = cc
repo-back false url (inr e) = sym e

-- Opening a registered project and saving it at once sends the project's own fields, no token and no
-- rotation; the token that is kept is neither shown nor sent.
project_body-open_project :
    (p : Project)
    → IsKept p
    → project_body false (open_project p) ≡ record {
      name = p.name;
      description = p.description;
      deploy_source = p.deploy_source;
      nodes = p.default_nodes;
      ref = p.ref;
      repo_url = p.repo_url;
      access_token = none;
      rotate_secret = none;
    }
unfolding project_body open_project
project_body-open_project p h i = record {
  name = p.name;
  description = p.description;
  deploy_source = p.deploy_source;
  nodes = p.default_nodes;
  ref = p.ref;
  repo_url = repo-back (needs_repo p.deploy_source) p.repo_url h i;
  access_token = none;
  rotate_secret = none;
}

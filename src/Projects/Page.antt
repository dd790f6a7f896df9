-- ===== src/Projects/Page.antt =====
-- `ProjectsPage`, `ProjectCard` and `VersionRow`: what they show, their handlers and their toasts.
pub mod Guarded
use scrapydweb.Base.{
  ◌>>=◌, take, ℕ, Bool, true, false, not, ◌&&◌, Option, none, some, or_else, List, [], ◌∷◌, ◌++◌,
  map, Text, text, or_text, same, length, ltb, ◌==◌, ◌-◌, is_some, All, if◌then◌else◌,
}
use scrapydweb.Js.Decimal.{show}
use scrapydweb.Js.Uri.{encode_uri}
use scrapydweb.Js.View.{
  Raises, Raises-append, Raises-when, Raises-map, enabled, Shown, when, when_some, concat_map,
}
use scrapydweb.Js.View
use scrapydweb.Api.Types.{Project, DeploySource, manual, folder, git, webhook}
use scrapydweb.Deploy.{NodeResult}
use scrapydweb.Payload.{latest}
use scrapydweb.Projects.Versions.{can_deploy, prune_text, delete_url, old_versions}

-- What a card does; `ask` shows the question before the event behind it.
pub data Event : Type 0 where
  deploy : Event
  configure toggle_open : Bool → Event
  delete_project : Event
  delete_version : Text → Event
  prune : Event
  show_spiders : Text → Bool → Event
  ask_delete_project ask_prune : Event
  ask_delete_version : Text → Event

pub record Question : Type 0 where
  pub title : Text
  pub description : Text
  pub confirm_label : Text
  pub confirmed : Event

-- the question of a button, and what its confirmation raises
unfoldable pub question : ℕ → Text → List Text → Event → Option Question
question node project versions ask_delete_project = some (record {
  title = text "Delete project \"" ++ (project ++ text "\"?");
  description =
      text "All versions on node " ++ (show node ++ text " will be removed from scrapyd.");
  confirm_label = text "Delete project";
  confirmed = delete_project;
})
question node project versions ask_prune = some (record {
  title = text "Delete old versions of \"" ++ (project ++ text "\"?");
  description =
      text "Keeps only the latest version on node "
      ++ (show node ++ (text "; removes the other " ++ (show (length versions - 1) ++ text ".")));
  confirm_label = text "Delete old versions";
  confirmed = prune;
})
question node project versions (ask_delete_version v) = some (record {
  title = text "Delete version \"" ++ (v ++ text "\"?");
  description =
      project
      ++ (text " on node " ++ (show node ++ text " — this version's egg is removed from scrapyd."));
  confirm_label = text "Delete version";
  confirmed = delete_version v;
})
question node project versions deploy = none
question node project versions (configure b) = none
question node project versions (toggle_open b) = none
question node project versions delete_project = none
question node project versions (delete_version v) = none
question node project versions prune = none
question node project versions (show_spiders v b) = none

-- what `prune` posts to for a version
unfoldable pub version_url : ℕ → Text → Text → Option Text
unfolding encode_uri
version_url node project version = do
  p ← encode_uri project
  v ← encode_uri version
  some
      (text "/" ++ (show node ++ (text "/api/delversion/" ++ (p ++ (text "/" ++ (v ++ text "/"))))))

-- the posts of `del.mutate` and `prune.mutate` while no post throws, each with its address
unfoldable pub deletions : ℕ → Text → List Text → Event → List (Option Text)
unfolding delete_url version_url
deletions node project versions delete_project = delete_url node project none ∷ []
deletions node project versions (delete_version v) = delete_url node project (some v) ∷ []
deletions node project versions prune = map (version_url node project) (old_versions versions)
deletions node project versions deploy = []
deletions node project versions (configure b) = []
deletions node project versions (toggle_open b) = []
deletions node project versions (show_spiders v b) = []
deletions node project versions ask_delete_project = []
deletions node project versions ask_prune = []
deletions node project versions (ask_delete_version v) = []

abbrev answered : ℕ → Text → List Text → Bool → Event → Option Question → List (Option Text)
answered node project versions ok e none = deletions node project versions e
answered node project versions true e (some q) = deletions node project versions q.confirmed
answered node project versions false e (some q) = []

-- what a click deletes, `(await confirmDialog(…)) && …` with the answer `ok`
unfoldable pub clicked : ℕ → Text → List Text → Bool → Event → List (Option Text)
unfolding question deletions
clicked node project versions ok e =
    answered node project versions ok e (question node project versions e)

abbrev source_text : DeploySource → Text
source_text manual = text "manual"
source_text folder = text "folder"
source_text git = text "git"
source_text webhook = text "webhook"

abbrev source_of : Option Project → Option DeploySource
source_of none = none
source_of (some p) = some p.deploy_source

-- the states of a card and of its mutations
pub record CardState : Type 0 where
  pub is_open : Bool
  pub configuring : Bool
  pub deploying : Bool
  pub pruning : Bool

unfoldable pub schedule_link : Text → Option Text
unfolding encode_uri
schedule_link project = do p ← encode_uri project; some (text "/schedule?project=" ++ p)

unfoldable pub code_link : Text → Text → Option Text
unfolding encode_uri
code_link project version = do
  p ← encode_uri project
  v ← encode_uri version
  some (text "/code/" ++ (p ++ (text "/" ++ v)))

abbrev version_part : Text → Option Text
unfolding encode_uri same latest
version_part version =
    if same version latest then some [] else do v ← encode_uri version; some (text "&version=" ++ v)

-- a spider's link to the form; the latest version is left out
unfoldable pub spider_link : Text → Text → Text → Option Text
unfolding encode_uri version_part same latest
spider_link project version spider = do
  p ← encode_uri project
  s ← encode_uri spider
  v ← version_part version
  some (text "/schedule?project=" ++ (p ++ (text "&spider=" ++ (s ++ v))))

-- `readable`: a version that is a time in seconds after 1,000,000,000; `Number` of an integer and the
-- first 19 units of the date's ISO text are parameters
module _ (integer : Text → Option ℕ) (iso_seconds : ℕ → Text) where
  unfoldable pub readable : Text → Option Text
  readable version = elim (integer version) [
    | none ↦ none
    | some ts ↦ if ltb 1000000000 ts then some (iso_seconds ts) else none
  ]

  -- `spiders`: those of the version, once they are loaded
  unfoldable pub spiders_view : Text → Text → Option (List Text) → List (Shown Event)
  unfolding spider_link
  spiders_view project version none = []
  spiders_view project version (some []) = View.says (text "no spiders") ∷ []
  spiders_view project version (some (s ∷ ss)) =
      map (λ sp. View.link sp (spider_link project version sp)) (s ∷ ss)

  unfoldable pub version_row : Text → Text → Bool → Option (List Text) → List (Shown Event)
  unfolding readable spiders_view code_link
  version_row project version shows_spiders spiders =
      View.says version
      ∷ (when_some (readable version) (λ t. View.says (text "(" ++ (t ++ text ")")) ∷ [])
          ++ View.link (text "code") (code_link project version)
            ∷ View.button (text "spiders") true (show_spiders version (not shows_spiders))
            ∷ View.button (text "Delete version " ++ version) true (ask_delete_version version)
            ∷ when shows_spiders (spiders_view project version spiders))

  -- the button that prunes, the rows of the loaded versions with their spiders, and a note for none
  unfoldable pub versions_view :
      Text
      → CardState
      → Option (List Text)
      → (Text → Bool)
      → (Text → Option (List Text))
      → List (Shown Event)
  unfolding version_row
  versions_view project s versions shown spiders =
      when (ltb 1 (length (or_else versions []))) (
        View.button
          (if s.pruning then text "Deleting…" else text "Delete old versions (keep latest)")
          (not s.pruning) ask_prune
        ∷ [])
      ++ (concat_map (λ v. version_row project v (shown v) (spiders v)) (or_else versions [])
          ++ when (is_some versions && (length (or_else versions []) == 0))
              (View.says (text "No versions.") ∷ []))

  -- a project's card
  unfoldable pub card_view :
      Text
      → Option Project
      → CardState
      → Option (List Text)
      → (Text → Bool)
      → (Text → Option (List Text))
      → List (Shown Event)
  unfolding can_deploy schedule_link versions_view
  card_view project registered s versions shown spiders =
      View.says project
      ∷ (when_some registered (λ (p : Project). View.badge (source_text p.deploy_source) ∷ [])
          ++ (when (can_deploy (source_of registered)) (
                View.button (if s.deploying then text "Deploying…" else text "Deploy")
                  (not s.deploying) deploy
                ∷ [])
              ++ View.link (text "Run") (schedule_link project)
                ∷ View.button (text "Configure") true (configure true)
                ∷ View.button (text "Delete") true ask_delete_project
                ∷ View.toggle (text "open") s.is_open toggle_open
                ∷ when s.is_open (versions_view project s versions shown spiders)))

pub data Effect : Type 0 where
  success error : Text → Effect
  refresh_projects refresh_versions : Effect

pub data Reply : Type 0 where
  ok : (project version : Text) → List NodeResult → Reply
  refused : (message : Option Text) → (json : Text) → List NodeResult → Reply
  thrown : (message : Text) → Reply

-- the nodes that failed, of a deploy's answer
unfoldable pub failed_nodes : List NodeResult → List Effect
unfolding same
failed_nodes [] = []
failed_nodes (r ∷ rs) =
    let rest = failed_nodes rs in
    if same r.status (text "ok")
    then rest
    else error (text "node " ++ (show r.node ++ (text ": " ++ or_text r.message (text "failed"))))
      ∷ rest

unfoldable pub after_deploy : Reply → List Effect
unfolding failed_nodes
after_deploy (ok project version results) =
    failed_nodes results
    ++ success (text "Deployed " ++ (project ++ (text " (" ++ (version ++ text ")"))))
      ∷ refresh_versions
      ∷ []
after_deploy (refused message json results) =
    failed_nodes results ++ error (or_else message (text "Deploy failed")) ∷ refresh_versions ∷ []
after_deploy (thrown m) = error (text "Deploy failed: " ++ m) ∷ []

abbrev deleted_text : Text → Option Text → Text
deleted_text project none = text "Project " ++ (project ++ text " deleted")
deleted_text project (some []) = text "Project " ++ (project ++ text " deleted")
deleted_text project (some (c ∷ v)) = text "Version " ++ ((c ∷ v) ++ text " deleted")

-- the toasts of `del`, for a version or the whole project
unfoldable pub after_delete : Text → Option Text → Reply → List Effect
after_delete project version (ok p v results) =
    success (deleted_text project version) ∷ refresh_projects ∷ refresh_versions ∷ []
after_delete project version (refused message json results) =
    error (text "Delete failed: " ++ take 150 json) ∷ refresh_projects ∷ refresh_versions ∷ []
after_delete project version (thrown m) = error (text "Delete failed: " ++ m) ∷ []

-- the toasts of `prune`, for the number of versions or an exception
unfoldable pub after_prune : Option ℕ → Text → List Effect
unfolding prune_text
after_prune (some n) m = success (prune_text n) ∷ refresh_versions ∷ []
after_prune none m = error (text "Prune failed: " ++ m) ∷ []

-- the page above its cards; `creating` opens the dialog
unfoldable pub page_view : ℕ → Bool → List Text → List (Shown Bool)
page_view node is_loading names =
    View.says (text "Projects")
    ∷ View.says (show (length names) ++ (text " projects · node " ++ show node))
    ∷ View.button (text "Create project") true true
    ∷ when (not is_loading && (length names == 0))
        (View.says (text "No projects yet.") ∷ View.button (text "Create a project") true true ∷ [])

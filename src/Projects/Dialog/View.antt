-- ===== src/Projects/Dialog/View.antt =====
-- What `ProjectDialog` shows, and its handlers.
use scrapydweb.Base.{
  ℕ, ◌≡◌, Bool, true, false, not, ◌&&◌, ◌||◌, Option, none, some, List, [], ◌∷◌, ◌++◌, Text, text,
  truthy, same, All, if◌then◌else◌, arith,
}
use scrapydweb.Js.View.{
  Shown, when, when_some, Raises, Raises-append, Raises-when, Raises-when_some, enabled,
}
use scrapydweb.Js.View
use scrapydweb.Api.Types.{Project, DeploySource, manual, folder, git, webhook}
use scrapydweb.Projects.Dialog.{ProjectForm, DialogState, needs_repo, is_valid}

pub data Event : Type 0 where
  type_name choose_source type_description type_url type_ref type_token : Text → Event
  choose_nodes : List ℕ → Event
  copy : (copied what : Text) → Event
  save : (rotate : Bool) → Event
  close : Event

abbrev source_value : DeploySource → Text
source_value manual = text "manual"
source_value folder = text "folder"
source_value git = text "git"
source_value webhook = text "webhook"

-- the hint of `SOURCES` for a mechanism
unfoldable pub hint : DeploySource → Text
hint manual = text "deploy by hand (upload / folder / git) — no saved config"
hint folder = text "build from a folder in the projects dir"
hint git = text "clone + build a repo on demand (one-click Deploy)"
hint webhook = text "auto-deploy on every push to the branch"

abbrev source_named : Text → DeploySource → DeploySource
source_named v old =
    if same v (text "manual")
    then manual
    else if same v (text "folder")
    then folder
    else if same v (text "git")
    then git
    else if same v (text "webhook")
    then webhook
    else old

-- `set` for each control; a save is `project_body` and `after_save`
unfoldable pub handle : Event → ProjectForm → ProjectForm
unfolding same
handle (type_name t) f = record f { name = t }
handle (choose_source v) f = record f { deploy_source = source_named v f.deploy_source }
handle (type_description t) f = record f { description = t }
handle (type_url t) f = record f { repo_url = t }
handle (type_ref t) f = record f { ref = t }
handle (type_token t) f = record f { access_token = t }
handle (choose_nodes ns) f = record f { nodes = ns }
handle (copy s what) f = f
handle (save rotate) f = f
handle close f = f

-- the fields of the repository
unfoldable pub repo_view : ProjectForm → List (Shown Event)
repo_view f =
    View.says (text "Repository (https)")
    ∷ View.input f.repo_url true type_url
    ∷ View.says (text "Branch / tag")
    ∷ View.input f.ref true type_ref
    ∷ View.says (text "Access token")
    ∷ View.input f.access_token true type_token
    ∷ []

abbrev secret_buttons : Text → Text → Text → Bool → Bool → List (Shown Event)
secret_buttons origin path secret is_registered busy =
    View.says (origin ++ path)
    ∷ View.button (text "URL") true (copy (origin ++ path) (text "Webhook URL"))
    ∷ View.button (text "Secret") true (copy secret (text "Webhook secret"))
    ∷ when is_registered (View.button (text "Rotate") (not busy) (save true) ∷ [])

abbrev is_webhook : DeploySource → Bool
is_webhook webhook = true
is_webhook manual = false
is_webhook folder = false
is_webhook git = false

-- the address and the secret of the webhook
unfoldable pub webhook_view : Text → ProjectForm → DialogState → Bool → Bool → List (Shown Event)
webhook_view origin f s is_registered busy = when (is_webhook f.deploy_source) (
    when_some s.webhook_path λ path. when_some s.secret λ secret.
      when (truthy path && truthy secret) (secret_buttons origin path secret is_registered busy))

abbrev name_of : Option Project → Text
name_of none = text "Create a project"
name_of (some p) = text "Edit " ++ p.name

abbrev is_some_project : Option Project → Bool
is_some_project none = false
is_some_project (some p) = true

abbrev save_label : Option Project → Bool → Text
save_label p true = text "Saving…"
save_label none false = text "Create project"
save_label (some p) false = text "Save changes"

unfoldable pub dialog_view :
    Text → Option Project → ProjectForm → DialogState → Bool → List (Shown Event)
unfolding repo_view webhook_view needs_repo is_valid hint
dialog_view origin project f s busy =
    View.says (name_of project)
    ∷ View.says (text "Name")
    ∷ View.input f.name (not (is_some_project project)) type_name
    ∷ View.says (text "Deploy mechanism")
    ∷ View.choice (source_value f.deploy_source)
        (text "manual" ∷ text "folder" ∷ text "git" ∷ text "webhook" ∷ []) true choose_source
    ∷ View.says (hint f.deploy_source)
    ∷ View.says (text "Description (optional)")
    ∷ View.input f.description true type_description
    ∷ (when (needs_repo f.deploy_source) (repo_view f)
        ++ (View.says (text "Default deploy nodes")
            ∷ (webhook_view origin f s (is_some_project project) busy
                ++ (when (truthy s.error) (View.says s.error ∷ [])
                    ++ (View.button (text "Close") true close
                        ∷ View.button (save_label project busy) (not (busy || not (is_valid f)))
                            (save false)
                        ∷ [])))))

-- What is right of a save that the dialog raises: it is the only one, a plain save has a valid form, and
-- a rotation of the secret a registered project.
abbrev pub IsChecked : Option Project → ProjectForm → Bool → Event → Type 0
IsChecked project f busy (save false) = (is_valid f ≡ true) × (busy ≡ false)
IsChecked project f busy (save true) = (is_some_project project ≡ true) × (busy ≡ false)
IsChecked project f busy (type_name t) = Unit
IsChecked project f busy (choose_source t) = Unit
IsChecked project f busy (type_description t) = Unit
IsChecked project f busy (type_url t) = Unit
IsChecked project f busy (type_ref t) = Unit
IsChecked project f busy (type_token t) = Unit
IsChecked project f busy (choose_nodes ns) = Unit
IsChecked project f busy (copy s what) = Unit
IsChecked project f busy close = Unit

module _ (origin : Text) (project : Option Project) (f : ProjectForm) (s : DialogState)
    (busy : Bool) where
  repo-IsChecked : All (Raises (IsChecked project f busy)) (repo_view f)
  unfolding repo_view
  repo-IsChecked = (tt, (λ t. tt, (tt, (λ t. tt, (tt, (λ t. tt, tt))))))

  secret-IsChecked :
      (path secret : Text)
      → All
          (Raises (IsChecked project f busy))
          (secret_buttons origin path secret (is_some_project project) busy)
  secret-IsChecked path secret = (
    tt,
    (
      tt,
      (
        tt,
        Raises-when (IsChecked project f busy) (is_some_project project) _
            λ e. (enabled (not busy) (λ n. (e, ground (arith, n))), tt),
      ),
    ),
  )

  webhook-IsChecked :
      All
        (Raises (IsChecked project f busy))
        (webhook_view origin f s (is_some_project project) busy)
  unfolding webhook_view
  webhook-IsChecked =
      let P = IsChecked project f busy in
      Raises-when P (is_webhook f.deploy_source) _ λ w. Raises-when_some P _ s.webhook_path λ path.
        Raises-when_some P _ s.secret
          λ secret. Raises-when P (truthy path && truthy secret) _ λ e. secret-IsChecked path secret

  -- The dialog of a project raises no save while another is pending; what it saves by its button is a
  -- valid form, and only a registered project's secret is rotated.
  pub dialog_view-IsChecked :
      All (Raises (IsChecked project f busy)) (dialog_view origin project f s busy)
  unfolding dialog_view
  dialog_view-IsChecked =
      let P = IsChecked project f busy in
      let name = enabled (not (is_some_project project)) (λ e t. tt) in
      let last =
        enabled (not (busy || not (is_valid f))) (λ e. (ground (arith, e), ground (arith, e))) in
      (
        tt,
        (
          tt,
          (
            name,
            (
              tt,
              (
                λ t. tt,
                (
                  tt,
                  (
                    tt,
                    (
                      λ t. tt,
                      Raises-append P (when (needs_repo f.deploy_source) (repo_view f)) _
                          (Raises-when P (needs_repo f.deploy_source) _ (λ e. repo-IsChecked))
                          (
                            tt,
                            Raises-append P (webhook_view origin f s (is_some_project project) busy)
                                _ webhook-IsChecked
                                (Raises-append P (when (truthy s.error) (View.says s.error ∷ [])) _
                                  (Raises-when P (truthy s.error) _ (λ e. (tt, tt)))
                                  (tt, (last, tt))),
                          ),
                    ),
                  ),
                ),
              ),
            ),
          ),
        ),
      )

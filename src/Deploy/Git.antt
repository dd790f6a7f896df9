-- ===== src/Deploy/Git.antt =====
-- `GitDeployCard`: what it shows, and its handlers.
use scrapydweb.Base.{
  ℕ, Bool, true, false, not, ◌&&◌, Option, none, some, List, [], ◌∷◌, ◌++◌, Text, text, truthy,
  if◌then◌else◌,
}
use scrapydweb.Js.View.{Shown, when}
use scrapydweb.Js.View
use scrapydweb.Api.Calls.{Call}
use scrapydweb.Deploy.{GitForm, can_deploy_git, git_call}

-- the states of the card
pub record GitState : Type 0 where
  pub form : GitForm
  pub error : Text
  pub busy : Bool

unfoldable pub mount : GitState
mount = record {
  form = record { repo = []; ref = text "main"; token = []; project = []; version = [] };
  error = [];
  busy = false;
}

pub data Event : Type 0 where
  type_repo type_ref type_token choose_project type_version : Text → Event
  submit : Event
  -- the call ends, with the error that is shown, if any
  settled : Option Text → Event

abbrev shown_error : Option Text → Text → Text
shown_error none old = old
shown_error (some e) old = e

-- the handlers, with the request of a submission
unfoldable pub handle : ℕ → List ℕ → Event → GitState → GitState × Option Call
unfolding git_call
handle node nodes (type_repo t) s = (record s { form = record s.form { repo = t } }, none)
handle node nodes (type_ref t) s = (record s { form = record s.form { ref = t } }, none)
handle node nodes (type_token t) s = (record s { form = record s.form { token = t } }, none)
handle node nodes (choose_project t) s = (record s { form = record s.form { project = t } }, none)
handle node nodes (type_version t) s = (record s { form = record s.form { version = t } }, none)
handle node nodes submit s =
    (record s { error = []; busy = true }, some (git_call node nodes s.form))
handle node nodes (settled e) s = (record s { error = shown_error e s.error; busy = false }, none)

unfoldable pub git_view : List ℕ → GitState → List (Shown Event)
unfolding can_deploy_git
git_view nodes s =
    View.says (text "Repository (https)")
    ∷ View.input s.form.repo true type_repo
    ∷ View.says (text "Branch / tag")
    ∷ View.input s.form.ref true type_ref
    ∷ View.says (text "Access token (private repos)")
    ∷ View.input s.form.token true type_token
    ∷ View.says (text "Project")
    ∷ View.input s.form.project true choose_project
    ∷ View.says (text "Version")
    ∷ View.input s.form.version (truthy s.form.project) type_version
    ∷ (when (truthy s.error) (View.says s.error ∷ [])
        ++ (View.button (if s.busy then text "Cloning & building…" else text "Deploy from git")
              (not s.busy && can_deploy_git s.form nodes) submit
            ∷ []))

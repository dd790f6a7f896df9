-- ===== src/Deploy/Auto.antt =====
-- `AutoDeployCard`: the projects that a webhook deploys.
use scrapydweb.Base.{
  ℕ, Bool, true, not, ◌&&◌, Option, none, some, List, [], ◌∷◌, ◌++◌, map, Text, text, truthy,
  length, ◌==◌, if◌then◌else◌,
}
use scrapydweb.Js.Decimal.{show}
use scrapydweb.Js.Strings.{join, starts_with}
use scrapydweb.Js.Json
use scrapydweb.Js.View.{Shown, when, when_some, concat_map}
use scrapydweb.Js.View
use scrapydweb.Api.Types.{Project}
use scrapydweb.Api.Calls.{Call, update_project}
use scrapydweb.Deploy.{webhook_projects}

pub data Editing : Type 0 where
  closed new_project : Editing
  project : Project → Editing

pub data Event : Type 0 where
  edit : Editing → Event
  enable : ℕ → Bool → Event
  copy : (copied what : Text) → Event

pub data Effect : Type 0 where
  call : Call → Effect
  write_clipboard : Text → Effect
  success error : Text → Effect
  refresh_projects : Effect

unfoldable pub handle : Event → Editing → Editing × List Effect
handle (edit e) s = (e, [])
handle (enable id b) s = (
  s,
  call (update_project id (Json.obj (Json.field (text "enabled") (Json.bool b) Json.end))) ∷ [],
)
handle (copy t what) s = (s, write_clipboard t ∷ success (what ++ text " copied") ∷ [])

-- the end of `toggle`: an answer, or an exception
unfoldable pub after_toggle : Option Text → List Effect
after_toggle none = refresh_projects ∷ []
after_toggle (some m) = error (text "Update failed: " ++ m) ∷ []

-- `p.repo_url.replace(/^https:\/\//, "")`
abbrev skip : ℕ → Text → Text
skip ℕ.zero s = s
skip (ℕ.suc n) [] = []
skip (ℕ.suc n) (c ∷ s) = skip n s

unfoldable pub short_url : Text → Text
unfolding starts_with
short_url s = if starts_with (text "https://") s then skip 8 s else s

abbrev secret_button : Option Text → List (Shown Event)
secret_button s =
    when_some s (λ t.
      when (truthy t) (View.button (text "Secret") true (copy t (text "Webhook secret")) ∷ []))

abbrev path_part : Text → Option Text → Option Text → List (Shown Event)
path_part origin path secret = when_some path (λ p. when (truthy p) (
    View.says (origin ++ p)
    ∷ View.button (text "URL") true (copy (origin ++ p) (text "Webhook URL"))
    ∷ secret_button secret))

-- a project's row, at the window's origin
unfoldable pub webhook_row : Text → Project → List (Shown Event)
unfolding short_url join
webhook_row origin p =
    View.says p.name
    ∷ View.says (short_url p.repo_url ++ (text " @ " ++ p.ref))
    ∷ View.badge (text "nodes " ++ join (text ",") (map show p.default_nodes))
    ∷ (when p.has_token (View.badge (text "private") ∷ [])
        ++ View.toggle (text "Enable " ++ p.name) p.enabled (enable p.id)
          ∷ View.button (text "Edit " ++ p.name) true (edit (project p))
          ∷ path_part origin p.webhook_path p.webhook_secret)

unfoldable pub auto_view : Text → (is_loading : Bool) → List Project → List (Shown Event)
unfolding webhook_row webhook_projects
auto_view origin is_loading projects =
    View.says (text "Auto-deploy from GitHub")
    ∷ View.button (text "New webhook project") true (edit new_project)
    ∷ (when (not is_loading && (length (webhook_projects projects) == 0))
          (View.says (text "No webhook projects yet.") ∷ [])
        ++ concat_map (webhook_row origin) (webhook_projects projects))

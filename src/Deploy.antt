-- ===== src/Deploy.antt =====
-- pages/deploy.tsx: the target, the fields of an upload, a deploy from git, and what a reply shows.
pub mod Git
pub mod Page
pub mod Auto
pub mod History
use scrapydweb.Base.{
  ℕ, zero, suc, Bool, true, false, ◌&&◌, Option, none, some, List, [], ◌∷◌, ◌++◌, map, Text, text,
  truthy, or_text, same, Obj, put, length, ltb, ◌==◌, filter, if◌then◌else◌,
}
use scrapydweb.Js.Decimal.{show}
use scrapydweb.Js.Strings.{join}
use scrapydweb.Js.Json.{Json, Items}
use scrapydweb.Js.Json
use scrapydweb.Js.Uri.{encode_uri}
use scrapydweb.Api.Calls.{Call, deploy_git}
use scrapydweb.Api.Types.{Project, DeploySource, webhook}

-- `nowVersion`, for what `toISOString` gives
abbrev first : ℕ → Text → Text
first zero s = []
first (suc n) [] = []
first (suc n) (c ∷ s) = c ∷ first n s

unfoldable pub underscored : Text → Text
underscored [] = []
underscored (c ∷ s) = (if c == b':' then b'_' else c) ∷ underscored s

unfoldable pub now_version : Text → Text
unfolding underscored
now_version iso = underscored (first 19 iso)

pub record NodeResult : Type 0 where
  pub node : ℕ
  pub server : Text
  pub status : Text
  pub status_code : ℕ
  pub message : Text

pub data Effect : Type 0 where
  toast_success toast_error : Text → Effect
  invalidate_history : Effect
  visit : Text → Effect
  set_error : Text → Effect

-- `toastNodeResults`
unfoldable pub node_toasts : List NodeResult → List Effect
node_toasts [] = []
node_toasts (r ∷ rs) =
    let rest = node_toasts rs in
    if same r.status (text "ok")
    then rest
    else toast_error (
        text "node "
        ++ (show r.node
            ++ (text " ("
                ++ (r.server
                    ++ (text "): " ++ or_text r.message (text "status " ++ show r.status_code))))))
      ∷ rest

-- the states of the page
pub record DeployState : Type 0 where
  pub folder : Text
  pub project : Text
  pub version : Text
  pub nodes : List ℕ

-- the topbar's node changes: it is selected alone
unfoldable pub sync_node : ℕ → DeployState → DeployState
sync_node node s = record s { nodes = node ∷ [] }

-- `pickFolder`: a project that is chosen stays
unfoldable pub pick_folder : Text → Text → DeployState → DeployState
pick_folder folder project s = record s { folder = folder; project = or_text s.project project }

pub data UploadSource : Type 0 where
  file : (name : Text) → UploadSource
  server_folder : Text → UploadSource

abbrev source_field : UploadSource → Text × Text
source_field (file name) = (text "file", name)
source_field (server_folder f) = (text "folder", f)

-- the fields of the form that is posted; a file stands for its name
unfoldable pub upload_fields : DeployState → UploadSource → Obj Text
unfolding join put
upload_fields s src = put (source_field src).0 (source_field src).1 (
    put (text "nodes") (join (text ",") (map show s.nodes)) (
      put (text "version") s.version
        (put (text "project") s.project (put (text "as_json") (text "True") []))))

unfoldable pub can_deploy_folder : DeployState → Bool
can_deploy_folder s = truthy s.folder && ltb 0 (length s.nodes)

-- The answer of a deploy: the status "ok", another one, or an error.
pub data Reply : Type 0 where
  deployed : (project version : Text) → (is_partial : Bool) → List NodeResult → Reply
  refused : (alert message other_text : Option Text) → List NodeResult → Reply
  broken : (message : Text) → Reply

abbrev either : Option Text → Option Text → Option Text
either none o = o
either (some s) o = some s

abbrev or_default : Option Text → Text → Text
or_default none d = d
or_default (some s) d = s

-- `/schedule?project=…`; no page is opened when `encodeURIComponent` throws
abbrev schedule_page : Option Text → List Effect
schedule_page none = []
schedule_page (some p) = visit (text "/schedule?project=" ++ p) ∷ []

unfoldable pub after_upload : Reply → List Effect
unfolding node_toasts encode_uri
after_upload (deployed project version is_partial results) =
    invalidate_history
    ∷ (node_toasts results
        ++ toast_success (
            text "Deployed "
            ++ (project
                ++ (text " ("
                    ++ (version
                        ++ (text ")"
                            ++ (if is_partial then text " — some nodes failed" else []))))))
          ∷ schedule_page (encode_uri project))
after_upload (refused alert message other_text results) =
    invalidate_history
    ∷ (node_toasts results
        ++ toast_error (
            or_default alert (text "Deploy failed")
            ++ (text ": " ++ or_default (either other_text message) []))
          ∷ [])
after_upload (broken m) = toast_error (text "Deploy failed: " ++ m) ∷ []

-- `GitDeployCard`
pub record GitForm : Type 0 where
  pub repo : Text
  pub ref : Text
  pub token : Text
  pub project : Text
  pub version : Text

unfoldable pub can_deploy_git : GitForm → List ℕ → Bool
can_deploy_git f nodes = truthy f.repo && truthy f.project && ltb 0 (length nodes)

abbrev numbers : List ℕ → Items
numbers [] = Json.nil
numbers (n ∷ ns) = Json.cons (Json.num n) (numbers ns)

unfoldable pub git_call : ℕ → List ℕ → GitForm → Call
git_call node nodes f = deploy_git (
    Json.obj (
      Json.field (text "repo") (Json.str f.repo) (
        Json.field (text "ref") (Json.str f.ref) (
          Json.field (text "token") (Json.str f.token) (
            Json.field (text "project") (Json.str f.project) (
              Json.field (text "version") (Json.str f.version) (
                Json.field (text "node") (Json.num node)
                  (Json.field (text "nodes") (Json.arr (numbers nodes)) Json.end))))))))

-- an exception is not caught: the card shows nothing of it
unfoldable pub after_git : Reply → List Effect
unfolding node_toasts encode_uri
after_git (deployed project version is_partial results) =
    invalidate_history
    ∷ (node_toasts results
        ++ toast_success
            (text "Deployed " ++ (project ++ (text " (" ++ (version ++ text ") from git"))))
          ∷ schedule_page (encode_uri project))
after_git (refused alert message other_text results) =
    invalidate_history
    ∷ (node_toasts results
        ++ set_error (or_default (either (either message other_text) alert) (text "Deploy failed"))
          ∷ [])
after_git (broken m) = []

abbrev is_webhook : DeploySource → Bool
is_webhook webhook = true
is_webhook _ = false

-- the projects of `AutoDeployCard`
unfoldable pub webhook_projects : List Project → List Project
unfolding filter
webhook_projects ps = filter (λ (p : Project). is_webhook p.deploy_source) ps

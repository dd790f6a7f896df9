-- ===== src/Api/Calls.antt =====
-- The methods of `api`, each with its helper, its URL and its body. `none` is the `URIError` that
-- `encodeURIComponent` throws before a request is made.
use scrapydweb.Base.{
  ◌>>=◌, ℕ, zero, suc, Bool, Option, none, some, or_else, List, [], ◌∷◌, ◌++◌, Text, text, truthy,
  Obj, if◌then◌else◌,
}
use scrapydweb.Js.Decimal.{show}
use scrapydweb.Js.Json.{Json, Items}
use scrapydweb.Js.Json
use scrapydweb.Js.Query.{to_query}
use scrapydweb.Js.Uri.{encode_uri}
use scrapydweb.Api.Helpers.{Helper, get_json, post_json, post_json_body, put_json, delete_json}

pub data Channel : Type 0 where
  slack telegram email : Channel

-- One constructor for each method of `api`, with the method's arguments.
pub data Call : Type 0 where
  nodes dashboard auth_me logout list_projects alert_rules settings_schema list_tokens list_groups :
      Call
  jobs tasks : (node : ℕ) → (page per_page : Option ℕ) → Call
  task_results : (node task_id : ℕ) → Call
  log_text log_stats : (node : ℕ) → (project spider job : Text) → (finished : Bool) → Call
  search : (node : ℕ) → (q : Text) → Call
  daemonstatus : (node : ℕ) → Call
  login setup : (username password : Text) → Call
  change_password : (current next : Text) → Call
  test_alert : Channel → Call
  deploy_git create_project create_alert_rule create_group : (body : Json) → Call
  deploy_history :
      (page per_page : Option ℕ) → (project : Option Text) → (repo_id : Option ℕ) → Call
  update_project update_alert_rule update_group schedule_saved_group fire_group :
      ℕ → (body : Json) → Call
  delete_project deploy_project delete_alert_rule delete_token delete_group : ℕ → Call
  code_list : (project version : Text) → Call
  code_file : (project version path : Text) → Call
  save_settings : (settings : Json) → (reset : Option (List Text)) → Call
  scrapyd : (node : ℕ) → (opt : Text) → (project vsj : Option Text) → Call
  create_token : (name : Text) → Call
  schedule_group : (node : ℕ) → (body : Json) → Call
  task_action : (node : ℕ) → (action : Text) → (task_id : Option ℕ) → Call

pub record Request : Type 0 where
  pub helper : Helper
  pub url : Text
  pub body : Option Json

abbrev bare : Helper → Text → Option Request
bare h url = some (record { helper = h; url = url; body = none })

abbrev with_body : Helper → Text → Json → Option Request
with_body h url b = some (record { helper = h; url = url; body = some b })

unfoldable pub channel_text : Channel → Text
channel_text slack = text "slack"
channel_text telegram = text "telegram"
channel_text email = text "email"

-- `?page=…&per_page=…`
unfoldable pub page_query : Option ℕ → Option ℕ → Text
page_query page per_page =
    text "/?page=" ++ (show (or_else page 1) ++ (text "&per_page=" ++ show (or_else per_page 100)))

unfoldable pub log_url : Text → ℕ → Text → Text → Text → Bool → Option Text
log_url opt node project spider job finished = do
  p ← encode_uri project
  s ← encode_uri spider
  j ← encode_uri job
  some (
      text "/api/"
      ++ (show node
          ++ (text "/log/"
              ++ (opt
                  ++ (text "/"
                      ++ (p
                          ++ (text "/"
                              ++ (s
                                  ++ (text "/"
                                      ++ (j
                                          ++ (text "/"
                                              ++ (if finished
                                                  then text "?job_finished=True"
                                                  else []))))))))))))

-- `if (params.x) qs.set(…)`: neither 0 nor an empty text is sent
abbrev number_param : Text → Option ℕ → Obj Text
number_param k none = []
number_param k (some zero) = []
number_param k (some (suc n)) = (k, show (suc n)) ∷ []

abbrev text_param : Text → Option Text → Obj Text
text_param k none = []
text_param k (some s) = if truthy s then (k, s) ∷ [] else []

abbrev question : Text → Text
question [] = []
question (c ∷ q) = text "?" ++ (c ∷ q)

unfoldable pub history_query : Option ℕ → Option ℕ → Option Text → Option ℕ → Text
history_query page per_page project repo_id = question (
    to_query (
      number_param (text "page") page
      ++ (number_param (text "per_page") per_page
          ++ (text_param (text "project") project ++ number_param (text "repo_id") repo_id))))

-- `if (x) url += encodeURIComponent(x) + "/"`
abbrev segment : Option Text → Option Text
segment none = some []
segment (some []) = some []
segment (some (c ∷ s)) = do e ← encode_uri (c ∷ s); some (e ++ text "/")

abbrev texts : List Text → Items
texts [] = Json.nil
texts (s ∷ ss) = Json.cons (Json.str s) (texts ss)

abbrev credentials : Text → Text → Text → Text → Json
credentials a u b p = Json.obj (Json.field a (Json.str u) (Json.field b (Json.str p) Json.end))

abbrev id_url : Text → ℕ → Text → Text
id_url base id rest = base ++ (show id ++ rest)

unfoldable pub request : Call → Option Request
unfolding channel_text page_query log_url history_query
request nodes = bare get_json (text "/api/nodes")
request dashboard = bare get_json (text "/api/dashboard")
request (jobs node page per_page) =
    bare get_json (text "/api/" ++ (show node ++ (text "/jobs" ++ page_query page per_page)))
request (tasks node page per_page) =
    bare get_json (text "/api/" ++ (show node ++ (text "/tasks" ++ page_query page per_page)))
request (task_results node task_id) =
    bare get_json
      (text "/api/" ++ (show node ++ (text "/tasks/" ++ (show task_id ++ text "/results/"))))
request (log_text node project spider job finished) = do
  url ← log_url (text "utf8") node project spider job finished
  bare get_json url
request (log_stats node project spider job finished) = do
  url ← log_url (text "stats") node project spider job finished
  bare get_json url
request (search node q) = do
  e ← encode_uri q
  bare get_json (text "/api/" ++ (show node ++ (text "/search/?q=" ++ e)))
request (daemonstatus node) = bare get_json (text "/" ++ (show node ++ text "/api/daemonstatus/"))
request auth_me = bare get_json (text "/api/auth/me")
request (login username password) =
    with_body post_json_body (text "/api/auth/login")
      (credentials (text "username") username (text "password") password)
request (setup username password) =
    with_body post_json_body (text "/api/auth/setup")
      (credentials (text "username") username (text "password") password)
request logout = with_body post_json_body (text "/api/auth/logout") (Json.obj Json.end)
request (change_password current next) =
    with_body post_json_body (text "/api/auth/password")
      (credentials (text "current") current (text "new") next)
request (test_alert channel) =
    with_body post_json_body (text "/api/alerts/test")
      (Json.obj (Json.field (text "channel") (Json.str (channel_text channel)) Json.end))
request (deploy_git body) = with_body post_json_body (text "/api/deploy/git") body
request (deploy_history page per_page project repo_id) =
    bare get_json (text "/api/deploy/history" ++ history_query page per_page project repo_id)
request list_projects = bare get_json (text "/api/projects")
request (create_project body) = with_body post_json_body (text "/api/projects") body
request (update_project id body) = with_body put_json (id_url (text "/api/projects/") id []) body
request (delete_project id) = bare delete_json (id_url (text "/api/projects/") id [])
request (deploy_project id) =
    with_body post_json_body (id_url (text "/api/projects/") id (text "/deploy"))
      (Json.obj Json.end)
request alert_rules = bare get_json (text "/api/alerts/rules")
request (create_alert_rule body) = with_body post_json_body (text "/api/alerts/rules") body
request (update_alert_rule id body) =
    with_body put_json (id_url (text "/api/alerts/rules/") id []) body
request (delete_alert_rule id) = bare delete_json (id_url (text "/api/alerts/rules/") id [])
request (code_list project version) = do
  p ← encode_uri project
  v ← encode_uri version
  bare get_json (text "/api/code/" ++ (p ++ (text "/" ++ (v ++ text "/"))))
request (code_file project version path) = do
  p ← encode_uri project
  v ← encode_uri version
  f ← encode_uri path
  bare get_json (text "/api/code/" ++ (p ++ (text "/" ++ (v ++ (text "/file?path=" ++ f)))))
request settings_schema = bare get_json (text "/api/settings/schema")
request (save_settings settings reset) = with_body put_json (text "/api/settings") (
    Json.obj (
      Json.field (text "settings") settings
        (Json.field (text "reset") (Json.arr (texts (or_else reset []))) Json.end)))
request (scrapyd node opt project vsj) = do
  p ← segment project
  v ← segment vsj
  bare post_json (text "/" ++ (show node ++ (text "/api/" ++ (opt ++ (text "/" ++ (p ++ v))))))
request list_tokens = bare get_json (text "/api/tokens")
request (create_token name) =
    with_body post_json_body (text "/api/tokens")
      (Json.obj (Json.field (text "name") (Json.str name) Json.end))
request (delete_token id) = bare delete_json (id_url (text "/api/tokens/") id [])
request list_groups = bare get_json (text "/api/groups")
request (create_group body) = with_body post_json_body (text "/api/groups") body
request (update_group id body) = with_body put_json (id_url (text "/api/groups/") id []) body
request (delete_group id) = bare delete_json (id_url (text "/api/groups/") id [])
request (schedule_saved_group id body) =
    with_body post_json_body (id_url (text "/api/groups/") id (text "/schedule")) body
request (fire_group id body) =
    with_body post_json_body (id_url (text "/api/groups/") id (text "/fire")) body
request (schedule_group node body) =
    with_body post_json_body (text "/" ++ (show node ++ text "/schedule/group/")) body
request (task_action node action none) =
    bare post_json (text "/" ++ (show node ++ (text "/tasks/xhr/" ++ (action ++ text "/"))))
request (task_action node action (some id)) = bare post_json (
    text "/"
    ++ (show node ++ (text "/tasks/xhr/" ++ (action ++ (text "/" ++ (show id ++ text "/"))))))

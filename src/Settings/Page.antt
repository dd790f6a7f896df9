-- ===== src/Settings/Page.antt =====
-- `SettingsPage`: the tabs, the active group, the bar for unsaved changes, and the requests of its buttons.
pub mod Owned
use scrapydweb.Base.{
  take, ℕ, Bool, true, false, not, Option, none, some, or_else, is_some, List, [], ◌∷◌, ◌++◌, map,
  Text, text, truthy, same, find, filter, Obj, get, length, ltb, ◌==◌, if◌then◌else◌,
}
use scrapydweb.Js.Decimal.{show}
use scrapydweb.Js.Json
use scrapydweb.Js.Strings.{join}
use scrapydweb.Js.View.{Shown, when, when_some, concat_map}
use scrapydweb.Js.View
use scrapydweb.Api.Calls.{
  Call, Channel, slack, telegram, email, channel_text, save_settings, test_alert,
}
use scrapydweb.Settings.Draft.{
  Value, servers, ServerRow, Draft, clean, set_value, replay, dirty_count, error_count, Edit,
  Effect, toast_success, toast_error, invalidate_settings, SaveReply,
}
use scrapydweb.Settings.Controls.{Field, FieldType, servers_type}
use scrapydweb.Settings.Servers.{
  secret, Patch, host, port, username, password, group, update, add_server, remove_server,
  shown_password,
}
use scrapydweb.Settings.Fields.{rows_view, monitor_view}
use scrapydweb.Settings.Fields

-- `SettingsGroupDto`
pub record Group : Type 0 where
  pub id : Text
  pub label : Text
  pub fields : List Field

pub data Event : Type 0 where
  in_field : Fields.Event → Event
  open_tab : Text → Event
  change_server : ℕ → Patch → Event
  add : Event
  remove : ℕ → Event
  save discard_all : Event
  send_test : Channel → Event

abbrev servers_key : Text
servers_key = text "SCRAPYD_SERVERS"

abbrev rows_or : Option Value → List ServerRow → List ServerRow
rows_or (some (servers rows)) stored = rows
rows_or (some v) stored = stored
rows_or none stored = stored

-- `draft["SCRAPYD_SERVERS"] ?? data.servers_value`
unfoldable pub server_rows : List ServerRow → Draft → List ServerRow
unfolding get
server_rows stored d = rows_or (get servers_key d.draft) stored

abbrev change_rows : (List ServerRow → List ServerRow) → List ServerRow → Draft → Draft
change_rows f stored d = set_value servers_key (servers (f (server_rows stored d))) d

-- the handlers on the draft; the requests are `reset_call` and `test_alert`, and a save is `after_save`
unfoldable pub handle : (parse_int : Text → ℕ) → List ServerRow → Event → Draft → Draft
unfolding replay set_value server_rows update add_server remove_server clean
handle parse_int stored (in_field (Fields.edit e)) d = replay (e ∷ []) d
handle parse_int stored (in_field (Fields.reset k)) d = d
handle parse_int stored (open_tab t) d = d
handle parse_int stored (change_server i p) d = change_rows (update parse_int i p) stored d
handle parse_int stored add d = change_rows add_server stored d
handle parse_int stored (remove i) d = change_rows (remove_server i) stored d
handle parse_int stored save d = d
handle parse_int stored discard_all d = clean
handle parse_int stored (send_test c) d = d

-- the mutation `reset`: nothing is set and one key is reset; what the answer says is not looked at
unfoldable pub reset_call : Text → Call
reset_call key = save_settings (Json.obj Json.end) (some (key ∷ []))

unfoldable pub after_reset : List Effect
after_reset = toast_success (text "Reset to default") ∷ invalidate_settings ∷ []

-- the request of an event, but for a save's, whose body is the draft
unfoldable pub sent : Event → Option Call
unfolding reset_call
sent (in_field (Fields.reset k)) = some (reset_call k)
sent (in_field (Fields.edit e)) = none
sent (send_test c) = some (test_alert c)
sent (open_tab t) = none
sent (change_server i p) = none
sent add = none
sent (remove i) = none
sent save = none
sent discard_all = none

-- `AlertTestRow`: an answer, or an exception, which is not caught
pub data Tested : Type 0 where
  result : (status json : Text) → Tested
  thrown : Tested

unfoldable pub after_test : Channel → Tested → Option Channel × List Effect
unfolding same channel_text
after_test c (result status json) = (
  none,
  (if same status (text "ok")
        then toast_success (channel_text c ++ text ": test message sent")
        else toast_error (channel_text c ++ (text ": " ++ take 200 json)))
      ∷ [],
)
after_test c thrown = (none, [])

abbrev is_busy : Option Channel → Channel → Bool
is_busy none c = false
is_busy (some b) c = same (channel_text b) (channel_text c)

unfoldable pub test_row : Option Channel → List (Shown Event)
unfolding channel_text same
test_row busy =
    View.says (text "Send a test message")
    ∷ map
        (λ c.
          View.button (if is_busy busy c then text "…" else channel_text c) (not (is_some busy))
            (send_test c))
        (slack ∷ telegram ∷ email ∷ [])

-- the mark of a tab: a dot when a field has an error, the number of unsaved changes otherwise
unfoldable pub tab_mark : Draft → Group → List (Shown Event)
unfolding dirty_count error_count
tab_mark d g =
    let keys = map (λ (f : Field). f.key) g.fields in
    if ltb 0 (error_count keys d)
    then View.badge [] ∷ []
    else when (ltb 0 (dirty_count keys d)) (View.badge (show (dirty_count keys d)) ∷ [])

unfoldable pub tabs_view : Draft → List Group → List (Shown Event)
unfolding tab_mark
tabs_view d groups =
    concat_map (λ (g : Group). View.button g.label true (open_tab g.id) ∷ tab_mark d g) groups
    ++ View.button (text "System info") true (open_tab (text "__system")) ∷ []

abbrev port_text : ℕ → Text
port_text n = if n == 0 then [] else show n

-- the rows of `ServersEditor`, from row `i` on
unfoldable pub server_views : ℕ → List ServerRow → List (Shown Event)
unfolding shown_password
server_views i [] = []
server_views i (r ∷ rows) =
    View.input r.host true (λ t. change_server i (host t))
    ∷ View.input (port_text r.port) true (λ t. change_server i (port t))
    ∷ View.input r.username true (λ t. change_server i (username t))
    ∷ View.input (shown_password r.password) true (λ t. change_server i (password t))
    ∷ View.input r.group true (λ t. change_server i (group t))
    ∷ View.button (text "Remove server") true (remove i)
    ∷ server_views (ℕ.suc i) rows

unfoldable pub servers_view : List ServerRow → Draft → List (Shown Event)
unfolding server_views server_rows get
servers_view stored d =
    View.says
      (text "Scrapyd servers" ++ (if is_some (get servers_key d.draft) then text "•" else []))
    ∷ View.button (text "Add server") true add
    ∷ (when_some (get servers_key d.errors) (λ m. when (truthy m) (View.says m ∷ []))
        ++ (server_views 0 (server_rows stored d)
            ++ View.says
                (text "Changes here re-derive the node list — open pages refresh automatically.")
              ∷ []))

-- what the events of a field become on the page
unfoldable pub lift : Shown Fields.Event → Shown Event
lift (View.says t) = View.says t
lift (View.badge t) = View.badge t
lift (View.link l h) = View.link l h
lift (View.jump l h e) = View.jump l h (in_field e)
lift (View.button l b e) = View.button l b (in_field e)
lift (View.input v b f) = View.input v b (λ t. in_field (f t))
lift (View.choice v o b f) = View.choice v o b (λ t. in_field (f t))
lift (View.toggle l c f) = View.toggle l c (λ b. in_field (f b))

abbrev pub is_servers : FieldType → Bool
is_servers servers_type = true
is_servers _ = false

module _ (parse_int parse_float to_number lower : Text → Text) where
  unfoldable pub group_fields : Draft → Group → List (Shown Fields.Event)
  unfolding rows_view monitor_view filter same
  group_fields d g =
      if same g.id (text "monitor")
      then monitor_view parse_int parse_float to_number lower d g.fields
      else rows_view parse_int parse_float to_number d
          (filter (λ (f : Field). not (is_servers f.type)) g.fields)

  -- the card of the active group
  unfoldable pub group_view : List ServerRow → Option Channel → Draft → Group → List (Shown Event)
  unfolding group_fields servers_view test_row lift same
  group_view stored busy d g =
      View.says g.label
      ∷ (when (same g.id (text "servers")) (servers_view stored d)
          ++ (when (same g.id (text "sendtext")) (test_row busy) ++ map lift (group_fields d g)))

-- `SystemInfoCard`: the entries but the databases, as texts, and the databases
unfoldable pub system_view : Obj (Option Text) → Obj Text → List (Shown Event)
unfolding same
system_view info databases =
    View.says (text "System info (read-only)")
    ∷ (concat_map
          (λ ((k, v) : Text × Option Text).
            when (not (same k (text "databases")))
              (View.says k ∷ View.says (or_else v (text "–")) ∷ []))
          info
        ++ concat_map (λ ((k, v) : Text × Text). View.says (text "db." ++ k) ∷ View.says v ∷ [])
            databases)

-- the bar below the page, when there is an unsaved change
unfoldable pub save_bar : Bool → Draft → List (Shown Event)
save_bar saving d =
    let dirty = length d.draft in
    when (ltb 0 dirty) (
      View.says (show dirty ++ (text " unsaved change" ++ (if ltb 1 dirty then text "s" else [])))
      ∷ View.button (if saving then text "Saving…" else text "Save") (not saving) save
      ∷ View.button (text "Discard") true discard_all
      ∷ [])

-- the line about the keys that wait for a restart
unfoldable pub restart_view : List Text → List (Shown Event)
unfolding join
restart_view [] = []
restart_view (k ∷ ks) =
    View.says (text "Saved but waiting for a restart: " ++ join (text ", ") (k ∷ ks)) ∷ []

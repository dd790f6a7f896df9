-- ===== src/Groups/View.antt =====
-- What `GroupsPage` shows: the form of a group, the saved groups with their buttons, and their handlers.
use scrapydweb.Base.{
  ℕ, zero, suc, Bool, true, false, not, Option, none, some, List, [], ◌∷◌, ◌++◌, map, Text, text,
  truthy, includes_text, length, ltb, ◌==◌, if◌then◌else◌,
}
use scrapydweb.Js.Decimal.{show}
use scrapydweb.Js.Strings.{join}
use scrapydweb.Js.Json
use scrapydweb.Js.View.{Shown, when, concat_map}
use scrapydweb.Js.View
use scrapydweb.Alerts.Rule.{channels}
use scrapydweb.Api.Types.{JobGroup}
use scrapydweb.Api.Calls.{Call, fire_group}
use scrapydweb.Payload.{latest}
use scrapydweb.Groups.Form.{
  GroupForm, is_valid, toggle, toggle_all, all_selected, set_project, set_version, set_channel,
}
use scrapydweb.Groups.Page.{PageState, reset, edit, save_call}
use scrapydweb.Groups.Dialogs.{fire_text}

-- The page with its two dialogs: the group that each is open for.
pub record ViewState : Type 0 where
  pub page : PageState
  pub sched_for : Option JobGroup
  pub run_for : Option JobGroup

pub data Event : Type 0 where
  type_name choose_project choose_version : Text → Event
  toggle_spider : Text → Event
  toggle_spiders : Event
  choose_nodes : List ℕ → Event
  notify : Bool → Event
  channel : Text → Bool → Event
  save cancel : Event
  fire run_with schedule edit_group delete : JobGroup → Event
  close_run close_schedule : Event

abbrev in_form : (GroupForm → GroupForm) → ViewState → ViewState
in_form f s = record s { page = record s.page { form = f s.page.form } }

-- the handlers on the state, at the topbar's node and for the spiders that are listed; what a reply
-- does is `after_save`, `after_fire` and `remove`
unfoldable pub handle : ℕ → List Text → Event → ViewState → ViewState
unfolding set_project set_version toggle toggle_all set_channel reset edit
handle node spiders (type_name t) s = in_form (λ v. record v { name = t }) s
handle node spiders (choose_project p) s = in_form (set_project p) s
handle node spiders (choose_version v) s = in_form (set_version v) s
handle node spiders (toggle_spider sp) s =
    in_form (λ v. record v { spiders = toggle sp v.spiders }) s
handle node spiders toggle_spiders s =
    in_form (λ v. record v { spiders = toggle_all spiders v.spiders }) s
handle node spiders (choose_nodes ns) s = in_form (λ v. record v { nodes = ns }) s
handle node spiders (notify b) s = in_form (λ v. record v { notify_enabled = b }) s
handle node spiders (channel c b) s =
    in_form (λ v. record v { notify_channels = set_channel c b v.notify_channels }) s
handle node spiders save s = s
handle node spiders cancel s = record s { page = reset node s.page }
handle node spiders (fire g) s = s
handle node spiders (run_with g) s = record s { run_for = some g }
handle node spiders (schedule g) s = record s { sched_for = some g }
handle node spiders (edit_group g) s = record s { page = edit node g s.page }
handle node spiders (delete g) s = s
handle node spiders close_run s = record s { run_for = none }
handle node spiders close_schedule s = record s { sched_for = none }

-- the request of an event: `save` when the form is valid, and `fire`, whose body is empty
unfoldable pub sent : Event → PageState → Option Call
unfolding is_valid save_call
sent save s = if is_valid s.form then some (save_call s s.form) else none
sent (fire g) s = some (fire_group g.id (Json.obj Json.end))
sent (type_name t) s = none
sent (choose_project p) s = none
sent (choose_version v) s = none
sent (toggle_spider sp) s = none
sent toggle_spiders s = none
sent (choose_nodes ns) s = none
sent (notify b) s = none
sent (channel c b) s = none
sent cancel s = none
sent (run_with g) s = none
sent (schedule g) s = none
sent (edit_group g) s = none
sent (delete g) s = none
sent close_run s = none
sent close_schedule s = none

-- How `fire` settles: the numbers of the answer, or an error; what is toasted, true for a success.
pub data FireReply : Type 0 where
  fired : (scheduled total : ℕ) → FireReply
  broken : (message : Text) → FireReply

unfoldable pub after_fire : FireReply → Bool × Text
unfolding fire_text
after_fire (fired scheduled total) = (ltb 0 scheduled, fire_text scheduled total)
after_fire (broken m) = (false, text "Fire failed: " ++ m)

-- `editingId` as a test: the number 0 counts as no group
abbrev is_editing : Option ℕ → Bool
is_editing none = false
is_editing (some zero) = false
is_editing (some (suc n)) = true

abbrev channel_toggles : List Text → List Text → List (Shown Event)
channel_toggles selected [] = View.says (text "none selected = use the global alert channels") ∷ []
channel_toggles selected (c ∷ cs) =
    View.toggle c (includes_text selected c) (channel c) ∷ channel_toggles selected cs

-- the list of spiders, or what stands in its place
unfoldable pub spiders_view : Text → Bool → List Text → List Text → List (Shown Event)
unfolding includes_text
spiders_view project loading spiders selected =
    if not (truthy project)
    then View.says (text "Pick a project first.") ∷ []
    else if loading
    then View.says (text "Loading spiders…") ∷ []
    else if length spiders == 0
    then View.says (text "No spiders for this version.") ∷ []
    else map (λ sp. View.toggle sp (includes_text selected sp) (λ b. toggle_spider sp)) spiders

-- the form of the group; the choices of a project and of nodes, and the two cards, are components
unfoldable pub builder_view :
    (saving loading : Bool) (versions spiders : List Text) → PageState → List (Shown Event)
unfolding spiders_view all_selected
builder_view saving loading versions spiders s =
    View.says (if is_editing s.editing then text "Edit group" else text "New group")
    ∷ View.says (text "Name")
    ∷ View.input s.form.name true type_name
    ∷ View.says (text "Project")
    ∷ View.input s.form.project true choose_project
    ∷ View.says (text "Version")
    ∷ View.choice s.form.version (latest ∷ versions) (truthy s.form.project) choose_version
    ∷ View.says (text "Spiders (" ++ (show (length s.form.spiders) ++ text ")"))
    ∷ (when (ltb 0 (length spiders)) (
          View.button
            (if all_selected spiders s.form.spiders then text "Clear all" else text "Select all")
            true toggle_spiders
          ∷ [])
        ++ (spiders_view s.form.project loading spiders s.form.spiders
            ++ (View.says (text "Nodes")
                ∷ View.toggle (text "Send a report when each run finishes") s.form.notify_enabled
                    notify
                ∷ (when s.form.notify_enabled (channel_toggles s.form.notify_channels channels)
                    ++ (View.button
                          (if is_editing s.editing then text "Update group" else text "Save group")
                          (not saving) save
                        ∷ when (is_editing s.editing)
                            (View.button (text "Cancel") true cancel ∷ []))))))

abbrev at_version : Text → Text
at_version [] = []
at_version (c ∷ v) = text "@" ++ c ∷ v

-- the command that fires a group
unfoldable pub fire_curl : Text → JobGroup → Text
fire_curl origin g =
    text "curl -X POST '"
    ++ (origin
        ++ (g.fire_path
            ++ (text "' \\"
                ++ 10
                  ∷ (text "  -H 'Authorization: Bearer sdw_…' \\"
                      ++ 10
                        ∷ (text "  -H 'Content-Type: application/json' \\"
                            ++ 10
                              ∷ text
                                  "  -d '{\"args\":{\"crawl_item_ids\":\"[\\\"id-001\\\"]\"}}'")))))

unfoldable pub group_row : Text → Bool → JobGroup → List (Shown Event)
unfolding fire_curl join
group_row origin firing g =
    View.says g.name
    ∷ View.says (
        g.project
        ++ (at_version g.version
            ++ (text " · "
                ++ (show (length g.spiders)
                    ++ (text " spider(s) · nodes " ++ join (text ",") (map show g.nodes))))))
    ∷ View.button (text "Fire now") (not firing) (fire g)
    ∷ View.button (text "Run with args") true (run_with g)
    ∷ View.button (text "Schedule") true (schedule g)
    ∷ View.button (text "Edit") true (edit_group g)
    ∷ View.button (text "Delete") true (delete g)
    ∷ View.says (text "Fire curl")
    ∷ View.says (fire_curl origin g)
    ∷ []

unfoldable pub saved_view : Text → Bool → List JobGroup → List (Shown Event)
unfolding group_row
saved_view origin firing groups =
    View.says (text "Saved groups")
    ∷ (when (length groups == 0) (View.says (text "No groups yet — build one above.") ∷ [])
        ++ concat_map (group_row origin firing) groups)

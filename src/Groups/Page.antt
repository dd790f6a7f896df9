-- ===== src/Groups/Page.antt =====
-- The groups page: which group is edited, what saving sends, and what a reply, an edit, a cancel
-- and a removal do to the page.
pub mod Reach
use scrapydweb.Base.{
  ℕ, zero, suc, Bool, true, false, not, List, [], ◌∷◌, ◌++◌, map, Option, none, some, Text, text,
  Obj, ◌==◌, if◌then◌else◌,
}
use scrapydweb.Js.Json.{Json, Items, Fields}
use scrapydweb.Js.Json
use scrapydweb.Api.Types.{JobGroup}
use scrapydweb.Api.Calls.{Call, create_group, update_group}
use scrapydweb.Payload.{Row}
use scrapydweb.Groups.Form.{GroupForm, GroupRecord, empty_form, to_record, edit_form}

-- `editingId` and the values of the form
pub record PageState : Type 0 where
  pub editing : Option ℕ
  pub form : GroupForm

-- the parts of a request's body
abbrev texts : List Text → Items
texts [] = Json.nil
texts (s ∷ ss) = Json.cons (Json.str s) (texts ss)

abbrev numbers : List ℕ → Items
numbers [] = Json.nil
numbers (n ∷ ns) = Json.cons (Json.num n) (numbers ns)

abbrev rows : List Row → Items
rows [] = Json.nil
rows (r ∷ rs) =
    Json.cons
      (Json.obj (
        Json.field (text "key") (Json.str r.key)
          (Json.field (text "value") (Json.str r.value) Json.end)))
      (rows rs)

abbrev pub entries : Obj Text → Fields
entries [] = Json.end
entries ((k, v) ∷ o) = Json.field k (Json.str v) (entries o)

unfoldable pub record_json : GroupRecord → Json
record_json r = Json.obj (
    Json.field (text "name") (Json.str r.name) (
      Json.field (text "project") (Json.str r.project) (
        Json.field (text "version") (Json.str r.version) (
          Json.field (text "spiders") (Json.arr (texts r.spiders)) (
            Json.field (text "nodes") (Json.arr (numbers r.nodes)) (
              Json.field (text "settings") (Json.arr (rows r.settings)) (
                Json.field (text "args") (Json.obj (entries r.args)) (
                  Json.field (text "notify_enabled") (Json.bool r.notify_enabled) (
                    Json.field (text "notify_channels") (Json.arr (texts r.notify_channels))
                      Json.end)))))))))

-- `editingId ? … : …`: the number 0 counts as no group
unfoldable pub save_call : PageState → GroupForm → Call
unfolding record_json to_record
save_call s v = elim s.editing [
  | some (suc id) ↦ update_group (suc id) (record_json (to_record v))
  | _ ↦ create_group (record_json (to_record v))
]

unfoldable pub reset : ℕ → PageState → PageState
reset node s = record { editing = none; form = empty_form node }

unfoldable pub edit : ℕ → JobGroup → PageState → PageState
edit node g s = record { editing = some g.id; form = edit_form node g }

pub data Effect : Type 0 where
  toast_success toast_error : Text → Effect
  invalidate_groups : Effect

-- How `save` settles: the status "ok" with the group's name, another status with the message, or an error.
pub data SaveReply : Type 0 where
  saved : (name : Text) → SaveReply
  refused : (message : Option Text) → SaveReply
  broken : (message : Text) → SaveReply

abbrev saved_text : Option ℕ → Text → Text
saved_text (some (suc id)) name = text "Group updated"
saved_text _ name = text "Saved group \"" ++ (name ++ text "\"")

abbrev message_or : Option Text → Text → Text
message_or none d = d
message_or (some []) d = d
message_or (some (c ∷ m)) d = c ∷ m

unfoldable pub after_save : ℕ → SaveReply → PageState → PageState × List Effect
unfolding reset
after_save node (saved name) s =
    (reset node s, toast_success (saved_text s.editing name) ∷ invalidate_groups ∷ [])
after_save node (refused m) s = (s, toast_error (message_or m (text "Save failed")) ∷ [])
after_save node (broken m) s = (s, toast_error (text "Save failed: " ++ m) ∷ [])

abbrev pub edits : Option ℕ → ℕ → Bool
edits none id = false
edits (some e) id = e == id

-- `remove`, for the user's answer and for whether `api.deleteGroup` returns. What is compared behind the
-- two `await`s is the `editingId` of the render whose button was clicked; the state is the one by then.
unfoldable pub remove :
    ℕ → (rendered : Option ℕ) → Bool → Bool → JobGroup → PageState → PageState × List Effect
unfolding reset
remove node rendered false deleted g s = (s, [])
remove node rendered true false g s = (s, [])
remove node rendered true true g s =
    (if edits rendered g.id then reset node s else s, invalidate_groups ∷ [])

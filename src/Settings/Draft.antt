-- ===== src/Settings/Draft.antt =====
-- The unsaved changes of the settings page and the errors shown beside them.
use scrapydweb.Base.{
  ℕ, ◌≡◌, ◌∙◌, Bool, true, false, not, ◌&&◌, ◌||◌, Option, none, some, List, [], ◌∷◌, ◌++◌, Text,
  text, truthy, same, same_iff, Obj, get, put, del, get-del, is_some, filter, length, if◌then◌else◌,
  arith,
}

-- a row of the servers, as the backend sends it
pub record ServerRow : Type 0 where
  pub host : Text
  pub port : ℕ
  pub username : Text
  pub password : Text
  pub group : Text
  pub public_url : Text

-- The values that the controls hold. A number is kept as the text that `String` writes of it.
pub data Value : Type 0 where
  null : Value
  bool : Bool → Value
  number : Text → Value
  str : Text → Value
  strs : List Text → Value
  numbers : List Text → Value
  servers : List ServerRow → Value

-- the states `draft` and `errors` of the page
pub record Draft : Type 0 where
  pub draft : Obj Value
  pub errors : Obj Text

unfoldable pub clean : Draft
clean = record { draft = []; errors = [] }

-- `errors[key]` as a condition
unfoldable pub shows_error : Text → Obj Text → Bool
unfolding get
shows_error k errors = elim (get k errors) [ some m ↦ truthy m | none ↦ false ]

unfoldable pub drop_error : Text → Obj Text → Obj Text
unfolding del shows_error
drop_error k errors = if shows_error k errors then del k errors else errors

-- `setValue` and `clearValue`
unfoldable pub set_value : Text → Value → Draft → Draft
unfolding drop_error put
set_value k v d = record { draft = put k v d.draft; errors = drop_error k d.errors }

unfoldable pub clear_value : Text → Draft → Draft
unfolding del
clear_value k d = record d { draft = del k d.draft }

-- What `save` does with a reply.
pub data Effect : Type 0 where
  toast_success toast_error : Text → Effect
  invalidate_settings invalidate_nodes : Effect

pub data SaveReply : Type 0 where
  applied : (restart nodes_changed : Bool) → SaveReply
  refused : (errors : Option (Obj Text)) → SaveReply
  broken : (message : Text) → SaveReply

abbrev nodes_effect : Bool → List Effect
nodes_effect true = invalidate_nodes ∷ []
nodes_effect false = []

abbrev errors_or : Option (Obj Text) → Obj Text
errors_or none = []
errors_or (some e) = e

unfoldable pub after_save : SaveReply → Draft → Draft × List Effect
unfolding clean
after_save (applied restart nodes_changed) d = (
  clean,
  toast_success
        (if restart then text "Saved — some changes need a restart" else text "Settings saved")
      ∷ invalidate_settings
      ∷ nodes_effect nodes_changed,
)
after_save (refused errors) d =
    (record d { errors = errors_or errors }, toast_error (text "Some settings are invalid") ∷ [])
after_save (broken m) d = (d, toast_error (text "Save failed: " ++ m) ∷ [])

-- `g.fields.filter((f) => f.key in draft).length` and the same with the errors
unfoldable pub dirty_count : List Text → Draft → ℕ
unfolding get filter
dirty_count keys d = length (filter (λ k. is_some (get k d.draft)) keys)

unfoldable pub error_count : List Text → Draft → ℕ
unfolding shows_error filter
error_count keys d = length (filter (λ k. shows_error k d.errors) keys)

-- what the fields of the page do, in the order the user does it
pub data Edit : Type 0 where
  assign : Text → Value → Edit
  discard : Text → Edit

unfoldable pub replay : List Edit → Draft → Draft
unfolding set_value clear_value
replay [] d = d
replay (assign k v ∷ es) d = replay es (set_value k v d)
replay (discard k ∷ es) d = replay es (clear_value k d)

unfoldable pub is_assigned : List Edit → Text → Bool
is_assigned [] k = false
is_assigned (assign j v ∷ es) k = same j k || is_assigned es k
is_assigned (discard j ∷ es) k = is_assigned es k

shows_error-drop :
    (k j : Text) (e : Obj Text)
    → shows_error j (drop_error k e) ≡ (not (same k j) && shows_error j e)
unfolding drop_error shows_error
shows_error-drop k j e = ground (arith, get-del k j e, same_iff k j)

-- An error is shown after the edits when it was shown before them and no value was set for its key:
-- clearing a field leaves its error.
pub shows_error-replay :
    (es : List Edit) (d : Draft) (k : Text)
    → shows_error k (replay es d).errors ≡ (not (is_assigned es k) && shows_error k d.errors)
unfolding replay is_assigned
shows_error-replay [] d k = ground arith
shows_error-replay (assign j v ∷ es) d k =
    shows_error-replay es (set_value j v d) k ∙ ground (arith, shows_error-drop j k d.errors)
shows_error-replay (discard j ∷ es) d k = shows_error-replay es (clear_value j d) k

-- ===== src/Settings/Fields.antt =====
-- `FieldRow`, `FieldControl` and `MonitorFields`: what they show, and the edits that they raise.
use scrapydweb.Base.{
  Bool, true, false, not, ◌||◌, Option, none, some, or_else, List, [], ◌∷◌, ◌++◌, map, Text, text,
  truthy, same, get, is_some, if◌then◌else◌,
}
use scrapydweb.Js.Strings.{join}
use scrapydweb.Js.View.{Shown, when, when_some, concat_map}
use scrapydweb.Js.View
use scrapydweb.Settings.Draft.{
  Value, null, bool, number, str, strs, numbers, servers, Draft, Edit, assign,
}
use scrapydweb.Settings.Controls.{
  Field, FieldType, bool_type, int_type, float_type, str_type, list_str, list_int, enum_type,
  secret_type, servers_type, Source, default_source, env, db, test, Apply, live, reschedule,
  resubprocess, restart, field_value, shows_reset, Input, switched, chosen, typed, control_edit,
  threshold_edit, null_choice, canonical, trigger_kinds, plain_fields, monitor_value, dirty_row,
  monitor_errors,
}
use scrapydweb.Settings.Servers.{secret, shown_password}

pub data Event : Type 0 where
  edit : Edit → Event
  reset : (key : Text) → Event

-- `Boolean(value)`, `String(value ?? "")` and the text of a number's input
unfoldable pub is_on : Value → Bool
unfolding same
is_on null = false
is_on (bool b) = b
is_on (number t) = not (same t (text "0") || same t (text "-0") || same t (text "NaN"))
is_on (str s) = truthy s
is_on (strs ss) = true
is_on (numbers ns) = true
is_on (servers rows) = true

unfoldable pub value_text : Value → Text
unfolding join
value_text null = []
value_text (bool true) = text "true"
value_text (bool false) = text "false"
value_text (number t) = t
value_text (str s) = s
value_text (strs ss) = join (text ",") ss
value_text (numbers ns) = join (text ",") ns
value_text (servers rows) = join (text ",") (map (λ r. text "[object Object]") rows)

-- what a select shows: a null is a choice of its own
abbrev current : Value → Text
current null = null_choice
current (bool b) = value_text (bool b)
current (number t) = value_text (number t)
current (str s) = value_text (str s)
current (strs ss) = value_text (strs ss)
current (numbers ns) = value_text (numbers ns)
current (servers rows) = value_text (servers rows)

-- the password's input shows a text that was typed, and nothing of the stored one
unfoldable pub secret_text : Value → Text
unfolding shown_password
secret_text (str s) = shown_password s
secret_text null = []
secret_text (bool b) = []
secret_text (number t) = []
secret_text (strs ss) = []
secret_text (numbers ns) = []
secret_text (servers rows) = []

abbrev is_stored : Value → Bool
is_stored (str s) = same s secret
is_stored null = false
is_stored (bool b) = false
is_stored (number t) = false
is_stored (strs ss) = false
is_stored (numbers ns) = false
is_stored (servers rows) = false

-- the text of a list before anything is typed; what `ListInput` keeps later is `ListState`
unfoldable pub list_text : Value → Text
unfolding canonical
list_text (strs ss) = canonical ss
list_text (numbers ns) = canonical ns
list_text null = []
list_text (bool b) = []
list_text (number t) = []
list_text (str s) = []
list_text (servers rows) = []

abbrev source_text : Source → Text
source_text default_source = text "default"
source_text env = text "env"
source_text db = text "db"
source_text test = text "test"

abbrev pub source_badge : Source → Bool → List (Shown Event)
source_badge default_source dirty = []
source_badge env dirty = when (not dirty) (View.badge (text "env") ∷ [])
source_badge db dirty = when (not dirty) (View.badge (text "db") ∷ [])
source_badge test dirty = when (not dirty) (View.badge (text "test") ∷ [])

abbrev pub apply_badge : Apply → List (Shown Event)
apply_badge live = []
apply_badge reschedule = []
apply_badge resubprocess = []
apply_badge restart = View.badge (text "needs restart") ∷ []

module _ (parse_int parse_float to_number : Text → Text) where
  abbrev pub raised : Field → Input → Event
  unfolding control_edit
  raised f i = edit (control_edit parse_int parse_float to_number f i)

  abbrev box : Field → Text → List (Shown Event)
  box f shown = View.input shown true (λ t. raised f (typed t)) ∷ []

  abbrev select : Field → Text → List Text → List (Shown Event)
  select f shown options = View.choice shown options true (λ t. raised f (chosen t)) ∷ []

  abbrev switch : Field → Value → List (Shown Event)
  switch f v = View.toggle [] (is_on v) (λ b. raised f (switched b)) ∷ []

  unfoldable pub control_by : FieldType → Field → Value → List (Shown Event)
  unfolding is_on value_text secret_text list_text
  control_by bool_type f v =
      if f.nullable
      then select f (current v) (null_choice ∷ text "True" ∷ text "False" ∷ [])
      else switch f v
  control_by enum_type f v =
      if f.nullable
      then select f (current v) (null_choice ∷ or_else f.choices [])
      else select f (value_text v) (or_else f.choices [])
  control_by int_type f v = box f (value_text v)
  control_by float_type f v = box f (value_text v)
  control_by secret_type f v = box f (secret_text v)
  control_by list_str f v = box f (list_text v)
  control_by list_int f v = box f (list_text v)
  control_by str_type f v = box f (value_text v)
  control_by servers_type f v = box f (value_text v)

  -- `FieldControl`
  unfoldable pub field_control : Field → Value → List (Shown Event)
  unfolding control_by
  field_control f v = control_by f.type f v

  -- `FieldRow`, for the draft and the errors
  unfoldable pub field_row : Draft → Field → List (Shown Event)
  unfolding field_control field_value shows_reset get
  field_row d f =
      View.says (f.label ++ (if is_some (get f.key d.draft) then text "•" else []))
      ∷ View.says f.key
      ∷ (source_badge f.source (is_some (get f.key d.draft))
          ++ (apply_badge f.apply
              ++ (when (shows_reset f d.draft)
                    (View.button (text "Reset to default") true (reset f.key) ∷ [])
                  ++ (field_control f (field_value f d.draft)
                      ++ (when (truthy f.help) (View.says f.help ∷ [])
                          ++ when_some (get f.key d.errors)
                              (λ m. when (truthy m) (View.says m ∷ [])))))))

  unfoldable pub rows_view : Draft → List Field → List (Shown Event)
  unfolding field_row
  rows_view d fields = concat_map (field_row d) fields

  abbrev key_of : Text → Text → Text
  key_of kind rest = text "LOG_" ++ (kind ++ rest)

  abbrev shown_threshold : Option Value → Text
  shown_threshold none = text "0"
  shown_threshold (some null) = text "0"
  shown_threshold (some (bool b)) = value_text (bool b)
  shown_threshold (some (number t)) = value_text (number t)
  shown_threshold (some (str s)) = value_text (str s)
  shown_threshold (some (strs ss)) = value_text (strs ss)
  shown_threshold (some (numbers ns)) = value_text (numbers ns)
  shown_threshold (some (servers rows)) = value_text (servers rows)

  abbrev trigger_switch : List Field → Draft → Text → Shown Event
  trigger_switch fields d k =
      View.toggle [] (elim (monitor_value fields d.draft k) [ none ↦ false | some v ↦ is_on v ])
        (λ b. edit (assign k (bool b)))

  -- a row of the triggers, whose name `lower` writes in lower case
  unfoldable pub trigger_row :
      (lower : Text → Text) → List Field → Draft → Text → List (Shown Event)
  unfolding monitor_value dirty_row value_text threshold_edit is_on
  trigger_row lower fields d kind =
      View.says (lower kind ++ (if dirty_row d.draft kind then text "•" else []))
      ∷ View.input
          (shown_threshold (monitor_value fields d.draft (key_of kind (text "_THRESHOLD")))) true
          (λ t.
            edit
              (threshold_edit parse_int parse_float to_number (key_of kind (text "_THRESHOLD")) t))
      ∷ trigger_switch fields d (key_of kind (text "_TRIGGER_STOP"))
      ∷ trigger_switch fields d (key_of kind (text "_TRIGGER_FORCESTOP"))
      ∷ []

  -- `MonitorFields`
  unfoldable pub monitor_view : (lower : Text → Text) → Draft → List Field → List (Shown Event)
  unfolding rows_view plain_fields trigger_row monitor_errors get
  monitor_view lower d fields =
      rows_view d (plain_fields fields)
      ++ (View.says (text "Log alert triggers")
          ∷ (concat_map (trigger_row lower fields d) trigger_kinds
              ++ map (λ k. View.says (k ++ (text ": " ++ or_else (get k d.errors) [])))
                  (monitor_errors d.errors)))

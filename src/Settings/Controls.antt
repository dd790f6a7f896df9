-- ===== src/Settings/Controls.antt =====
-- The controls of the settings page: what is shown of a value and what a change hands on.
use scrapydweb.Base.{
  ℕ, ◌≡◌, refl, ap, ◌∙◌, Bool, true, false, not, ◌&&◌, Option, none, some, List, [], ◌∷◌, ◌++◌, map,
  Text, text, truthy, or_else, same, Obj, get, put_all, is_some, filter, any, if◌then◌else◌, All,
}
use scrapydweb.Js.Strings.{
  starts_with, has_unit, split, join, push_front, trim, split-free, split-append,
}
use scrapydweb.Settings.Draft.{
  Value, null, bool, number, str, strs, numbers, Edit, assign, discard, shows_error,
}

pub data FieldType : Type 0 where
  bool_type int_type float_type str_type list_str list_int enum_type secret_type servers_type :
      FieldType

pub data Source : Type 0 where
  default_source env db test : Source

pub data Apply : Type 0 where
  live reschedule resubprocess restart : Apply

-- `SettingFieldDto`
pub record Field : Type 0 where
  pub key : Text
  pub type : FieldType
  pub label : Text
  pub help : Text
  pub default : Value
  pub value : Value
  pub source : Source
  pub apply : Apply
  pub secret : Bool
  pub nullable : Bool
  pub choices : Option (List Text)
  pub min : Option ℕ
  pub textarea : Bool

-- `FieldRow`: the value shown, and whether "Reset to default" is offered
unfoldable pub field_value : Field → Obj Value → Value
unfolding get
field_value f draft = or_else (get f.key draft) f.value

abbrev is_db : Source → Bool
is_db db = true
is_db _ = false

unfoldable pub shows_reset : Field → Obj Value → Bool
unfolding get
shows_reset f draft = is_db f.source && not (is_some (get f.key draft))

-- The raw event of a control: a switch, a choice or a text.
pub data Input : Type 0 where
  switched : Bool → Input
  chosen typed : Text → Input

abbrev pub null_choice : Text
null_choice = text "__null__"

-- `ListInput`: `e.target.value.split(",").map((s) => s.trim()).filter(Boolean)`
unfoldable pub list_parts : Text → List Text
unfolding filter split trim
list_parts s = filter truthy (map trim (split 44 s))

-- `(…).join(", ")`
unfoldable pub canonical : List Text → Text
unfolding join
canonical items = join (text ", ") items

-- `parseInt(s, 10)`, `parseFloat(s)` and `Number(s)`, as `String` writes what they give
module _ (parse_int parse_float to_number : Text → Text) where
  unfoldable pub nullable_choice : FieldType → Text → Value
  nullable_choice bool_type s = if same s null_choice then null else bool (same s (text "True"))
  nullable_choice _ s = if same s null_choice then null else str s

  unfoldable pub numeric : (Text → Text) → Field → Text → Edit
  numeric parse f [] = if f.nullable then assign f.key null else discard f.key
  numeric parse f (c ∷ s) = assign f.key (number (parse (c ∷ s)))

  unfoldable pub secret_edit : Field → Text → Edit
  secret_edit f [] = discard f.key
  secret_edit f (c ∷ s) = assign f.key (str (c ∷ s))

  -- `FieldControl`'s handlers: the edit of the draft that an event of the field's control makes
  unfoldable pub control_edit : Field → Input → Edit
  unfolding nullable_choice numeric secret_edit list_parts
  control_edit f (switched b) = assign f.key (bool b)
  control_edit f (chosen s) = assign f.key (if f.nullable then nullable_choice f.type s else str s)
  control_edit f (typed s) = elim f.type [
    | int_type ↦ numeric parse_int f s
    | float_type ↦ numeric parse_float f s
    | secret_type ↦ secret_edit f s
    | list_str ↦ assign f.key (strs (list_parts s))
    | list_int ↦ assign f.key (numbers (map to_number (list_parts s)))
    | _ ↦ assign f.key (str s)
  ]

  -- the threshold's input of `MonitorFields`
  unfoldable pub threshold_edit : Text → Text → Edit
  threshold_edit k [] = discard k
  threshold_edit k (c ∷ s) = assign k (number (parse_int (c ∷ s)))

abbrev pub trigger_kinds : List Text
trigger_kinds =
    text "CRITICAL"
    ∷ text "ERROR"
    ∷ text "WARNING"
    ∷ text "REDIRECT"
    ∷ text "RETRY"
    ∷ text "IGNORE"
    ∷ []

abbrev log_key : Text → Text → Text
log_key kind rest = text "LOG_" ++ (kind ++ rest)

unfoldable pub trigger_keys : Text → List Text
trigger_keys kind =
    log_key kind (text "_THRESHOLD")
    ∷ log_key kind (text "_TRIGGER_STOP")
    ∷ log_key kind (text "_TRIGGER_FORCESTOP")
    ∷ []

abbrev pub all_keys : List Text → List Text
unfolding trigger_keys
all_keys [] = []
all_keys (k ∷ ks) = trigger_keys k ++ all_keys ks

-- the fields that keep a row, the value of a key, a row's mark, and the errors below the table
unfoldable pub plain_fields : List Field → List Field
unfolding filter starts_with
plain_fields fields = filter (λ (f : Field). not (starts_with (text "LOG_") f.key)) fields

unfoldable pub monitor_value : List Field → Obj Value → Text → Option Value
unfolding get put_all
monitor_value fields draft k = elim (get k draft) [
  | some v ↦ some v
  | none ↦ get k (put_all (map (λ (f : Field). (f.key, f.value)) fields) [])
]

unfoldable pub dirty_row : Obj Value → Text → Bool
unfolding get any trigger_keys
dirty_row draft kind = any (λ k. is_some (get k draft)) (trigger_keys kind)

unfoldable pub monitor_errors : Obj Text → List Text
unfolding filter shows_error
monitor_errors errors = filter (λ k. shows_error k errors) (all_keys trigger_kinds)

-- An item that the list's text keeps: not empty, without a comma, and trimmed, also behind a blank.
abbrev pub IsItem : Text → Type 0
IsItem s = (truthy s ≡ true) × (has_unit 44 s ≡ false) × (trim s ≡ s) × (trim (32 ∷ s) ≡ s)

split-blank : (t : Text) → split 44 (32 ∷ t) ≡ push_front 32 (split 44 t)
unfolding split
split-blank t = refl

split-join :
    (s : Text) (ss : List Text)
    → All IsItem (s ∷ ss)
    → split 44 (join (text ", ") (s ∷ ss)) ≡ s ∷ map (λ (t : Text). 32 ∷ t) ss
unfolding join
split-join s [] h = split-free 44 s h.0.1
split-join s (q ∷ ps) h =
    split-append 44 s (32 ∷ join (text ", ") (q ∷ ps)) h.0.1
    ∙ ap (λ (t : List Text). s ∷ t)
        (split-blank (join (text ", ") (q ∷ ps)) ∙ ap (push_front 32) (split-join q ps h.1))

tail-kept :
    (ss : List Text) → All IsItem ss → filter truthy (map trim (map (λ (t : Text). 32 ∷ t) ss)) ≡ ss
unfolding filter
tail-kept [] h = refl
tail-kept (s ∷ ss) h = rw (h.0.3, h.0.0, tail-kept ss h.1)

-- Parsing the text that the control shows for a list gives the list back.
pub list_parts-canonical :
    (items : List Text) → All IsItem items → list_parts (canonical items) ≡ items
unfolding canonical list_parts filter
list_parts-canonical [] h = unfold split trim join in refl
list_parts-canonical (s ∷ ss) h = rw (split-join s ss h, h.0.2, h.0.0, tail-kept ss h.1)

-- ===== src/Schedule/Prefill/RoundTrip.antt =====
-- Editing a stored task gives back the form that it was made from.
use scrapydweb.Base.{
  ℕ, ◌≡◌, refl, ap, true, false, not, ◌&&◌, ◌||◌, List, [], ◌∷◌, ◌++◌, ◌∙◌, some, Text, text, all,
  or_text, any-All, same, same_sym, arith, ◌==◌, leb, length, all-All, includes_text, &&-true,
}
use scrapydweb.Js.Decimal.{is_digit}
use scrapydweb.Js.Json
use scrapydweb.Js.Json.{Json, Items, Fields}
use scrapydweb.Js.Strings.{cut-append, has_unit, All-free}
use scrapydweb.Api.Types.{TaskRow}
use scrapydweb.Catalogue.Keys.{setting_key_re, is_upper, reserved_arg_keys}
use scrapydweb.Payload.{Row, cron, add, latest, ScheduleForm}
use scrapydweb.Payload.Curl.{key_value}
use scrapydweb.Schedule.Validate.{setting_row}
use scrapydweb.Schedule.Prefill.{
  split_setting, to_string, setting_rows, setting_value, stored_settings, stored_args, task_to_form,
}

unfoldable pub setting_items : List Row → Items
setting_items [] = Json.nil
setting_items (r ∷ rows) = Json.cons (Json.str (key_value r)) (setting_items rows)

-- the entries of some arguments, in front of other entries
unfoldable pub arg_fields : List Row → Fields → Fields
arg_fields [] fs = fs
arg_fields (r ∷ rows) fs = Json.field r.key (Json.str r.value) (arg_fields rows fs)

-- The object that the backend stores for a run: the settings as "KEY=VAL" texts under "setting", with
-- the arguments before it and behind it, wherever the order of the keys puts it.
abbrev pub stored : (before settings after : List Row) → Fields
stored before settings after =
    arg_fields before
      (Json.field (text "setting") (Json.arr (setting_items settings)) (arg_fields after Json.end))

key-free : (s : Text) → setting_key_re s ≡ true → has_unit b'=' s ≡ false
unfolding setting_key_re has_unit
key-free [] h = cc
key-free (c ∷ s) h =
    let (r, a) = &&-true (is_upper c && leb (length s) 30) _ h in
    rw (first c (&&-true (is_upper c) _ r).0) (
      All-free (λ d. is_upper d || is_digit d || (d == b'_')) b'=' s
        (unfold is_upper is_digit in refl) (all-All _ s a))
  where
    first : (c : ℕ) → is_upper c ≡ true → (c == b'=') ≡ false
    first c u = unfold is_upper in ground arith

split_setting-key_value : (r : Row) → setting_row r ≡ true → split_setting (key_value r) ≡ r
unfolding split_setting key_value setting_row
split_setting-key_value r h =
    rw (cut-append b'=' r.key r.value (key-free r.key (&&-true _ _ h).0), split_setting)

setting_rows-items :
    (rows : List Row) → all setting_row rows ≡ true → setting_rows (setting_items rows) ≡ some rows
unfolding setting_rows setting_items all
setting_rows-items [] h = refl
setting_rows-items (r ∷ rows) h =
    let (a, b) = &&-true (setting_row r) (all setting_row rows) h in
    rw (setting_rows-items rows b, setting_rows) (cc (split_setting-key_value r a))

unreserved-setting :
    (k : Text) → includes_text reserved_arg_keys k ≡ false → same k (text "setting") ≡ false
unreserved-setting k h = rw (same_sym k (text "setting")) (
    unfold reserved_arg_keys in
    (any-All (λ x. same x k) reserved_arg_keys (unfold includes_text in h)).1.1.1.1.0)

stored_args-fields :
    (rows : List Row) (fs : Fields)
    → all (λ r. not (includes_text reserved_arg_keys r.key)) rows ≡ true
    → stored_args (arg_fields rows fs) ≡ rows ++ stored_args fs
unfolding stored_args arg_fields all to_string
stored_args-fields [] fs h = refl
stored_args-fields (r ∷ rows) fs h =
    rw (unreserved-setting r.key (ground arith))
      (ap (λ (t : List Row). r ∷ t) (stored_args-fields rows fs (ground arith)))

stored_settings-fields :
    (rows : List Row) (fs : Fields)
    → all (λ r. not (includes_text reserved_arg_keys r.key)) rows ≡ true
    → stored_settings (arg_fields rows fs) ≡ stored_settings fs
unfolding stored_settings arg_fields all
stored_settings-fields [] fs h = refl
stored_settings-fields (r ∷ rows) fs h =
    rw (unreserved-setting r.key (ground arith)) (stored_settings-fields rows fs (ground arith))

append-nil : (rows : List Row) → rows ++ [] ≡ rows
append-nil [] = refl
append-nil (r ∷ rows) = ap (λ (t : List Row). r ∷ t) (append-nil rows)

module _ (before settings after : List Row)
    (free_before : all (λ (r : Row). not (includes_text reserved_arg_keys r.key)) before
      ≡ true) where
  stored-settings :
      all setting_row settings ≡ true
      → stored_settings (stored before settings after) ≡ some settings
  stored-settings h =
      stored_settings-fields before _ free_before
      ∙ unfold stored_settings setting_value same in setting_rows-items settings h

  stored-args :
      all (λ r. not (includes_text reserved_arg_keys r.key)) after ≡ true
      → stored_args (stored before settings after) ≡ before ++ after
  stored-args h =
      stored_args-fields before _ free_before
      ∙ ap (λ t. before ++ t)
          (unfold stored_args same in stored_args-fields after Json.end h ∙ append-nil after)

-- Editing a task whose stored object holds settings with well-formed keys and arguments with
-- unreserved keys, before the settings' entry and behind it, opens the form with the same settings,
-- arguments and nodes, on the task's id.
pub task_to_form-stored :
    (before settings after : List Row) (n : ℕ) (ns : List ℕ) (t : TaskRow)
    → all setting_row settings ≡ true
    → all (λ r. not (includes_text reserved_arg_keys r.key)) before ≡ true
    → all (λ r. not (includes_text reserved_arg_keys r.key)) after ≡ true
    → (v : ScheduleForm) × (task_to_form (some (stored before settings after)) (some (n ∷ ns)) t
        ≡ some v)
      × (v.settings ≡ settings)
      × (v.args ≡ before ++ after)
      × (v.nodes ≡ n ∷ ns)
      × (v.mode ≡ cron)
      × (v.task_id ≡ some t.id)
unfolding task_to_form
task_to_form-stored before settings after n ns t hs hb ha = (
  record {
    project = t.project;
    version = or_text t.version latest;
    spider = t.spider;
    jobid = t.jobid;
    nodes = n ∷ ns;
    settings = settings;
    args = before ++ after;
    mode = cron;
    name = t.name;
    action = add;
    task_id = some t.id;
    year = t.year;
    month = t.month;
    day = t.day;
    week = t.week;
    day_of_week = t.day_of_week;
    hour = t.hour;
    minute = t.minute;
    second = t.second;
  },
  rw (stored-settings before settings after hb hs, task_to_form)
      (rw (stored-args before settings after hb ha)),
  refl,
  refl,
  refl,
  refl,
  refl,
)

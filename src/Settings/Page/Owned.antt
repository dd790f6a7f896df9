-- ===== src/Settings/Page/Owned.antt =====
-- The keys that the fields of a tab edit.
use scrapydweb.Base.{
  ℕ, Obj, ◌≡◌, refl, ap, ◌∙◌, Bool, true, false, not, ◌||◌, List, [], ◌∷◌, ◌++◌, map, Text, text,
  truthy, same, same_refl, same_iff, is_some, get, get-put, get-del, includes_text, filter, All,
  All-kept, if◌then◌else◌, arith,
}
use scrapydweb.Js.View.{
  Shown, Raises, Raises-append, Raises-when, Raises-weaker, Raises-when_some, when, when_some,
  concat_map,
}
use scrapydweb.Js.View
use scrapydweb.Settings.Draft.{
  ServerRow, set_value, clear_value, drop_error, Value, Draft, assign, discard, replay,
}
use scrapydweb.Settings.Controls.{
  Field, FieldType, Input, trigger_keys, int_type, float_type, secret_type, list_str, list_int,
  str_type, servers_type, bool_type, enum_type, typed, chosen, switched, default_source, env, db,
  test, live, reschedule, resubprocess, restart, control_edit, field_value, shows_reset,
  trigger_kinds, all_keys, threshold_edit, Source, Apply, plain_fields, monitor_errors,
}
use scrapydweb.Settings.Fields.{
  source_badge, apply_badge, Event, edit, reset, field_control, field_row, rows_view, monitor_view,
  control_by, raised, trigger_row,
}
use scrapydweb.Settings.Page.{is_servers, handle, in_field, Group, group_fields}

abbrev key_of : Event → Text
key_of (edit (assign k v)) = k
key_of (edit (discard k)) = k
key_of (reset k) = k

-- the keys of a tab: its fields', and the triggers' on the tab "monitor"
abbrev pub own_keys : Group → List Text
own_keys g =
    map (λ (f : Field). f.key) g.fields
    ++ (if same g.id (text "monitor") then all_keys trigger_kinds else [])

abbrev pub Owns : List Text → Event → Type 0
Owns ks e = includes_text ks (key_of e) ≡ true

module _ (parse_int parse_float to_number : Text → Text) where
  key-control_edit :
      (f : Field) (i : Input)
      → key_of (edit (control_edit parse_int parse_float to_number f i)) ≡ f.key
  unfolding control_edit
  key-control_edit f i = ground arith

  module _ (ks : List Text) where
    raised-Owns :
        (f : Field) (i : Input)
        → includes_text ks f.key ≡ true
        → Owns ks (raised parse_int parse_float to_number f i)
    unfolding control_edit
    raised-Owns f i h = ap (includes_text ks) (key-control_edit f i) ∙ h

    either-Owns :
        (b : Bool) (xs ys : List (Shown Event))
        → All (Raises (Owns ks)) xs
        → All (Raises (Owns ks)) ys
        → All (Raises (Owns ks)) (if b then xs else ys)
    either-Owns true xs ys h k = h
    either-Owns false xs ys h k = k

    control-Owns :
        (t : FieldType) (f : Field) (v : Value)
        → includes_text ks f.key ≡ true
        → All (Raises (Owns ks)) (control_by parse_int parse_float to_number t f v)
    unfolding control_by
    control-Owns int_type f v h = ((λ s. raised-Owns f (typed s) h), tt)
    control-Owns float_type f v h = ((λ s. raised-Owns f (typed s) h), tt)
    control-Owns secret_type f v h = ((λ s. raised-Owns f (typed s) h), tt)
    control-Owns list_str f v h = ((λ s. raised-Owns f (typed s) h), tt)
    control-Owns list_int f v h = ((λ s. raised-Owns f (typed s) h), tt)
    control-Owns str_type f v h = ((λ s. raised-Owns f (typed s) h), tt)
    control-Owns servers_type f v h = ((λ s. raised-Owns f (typed s) h), tt)
    control-Owns bool_type f v h =
        either-Owns f.nullable _ _ ((λ s. raised-Owns f (chosen s) h), tt)
          ((λ b. raised-Owns f (switched b) h), tt)
    control-Owns enum_type f v h =
        either-Owns f.nullable _ _ ((λ s. raised-Owns f (chosen s) h), tt)
          ((λ s. raised-Owns f (chosen s) h), tt)

    source-Owns : (s : Source) (b : Bool) → All (Raises (Owns ks)) (source_badge s b)
    source-Owns default_source b = tt
    source-Owns env b = Raises-when (Owns ks) (not b) _ (λ e. (tt, tt))
    source-Owns db b = Raises-when (Owns ks) (not b) _ (λ e. (tt, tt))
    source-Owns test b = Raises-when (Owns ks) (not b) _ (λ e. (tt, tt))

    apply-Owns : (a : Apply) → All (Raises (Owns ks)) (apply_badge a)
    apply-Owns live = tt
    apply-Owns reschedule = tt
    apply-Owns resubprocess = tt
    apply-Owns restart = (tt, tt)

    field-Owns :
        (d : Draft) (f : Field)
        → includes_text ks f.key ≡ true
        → All (Raises (Owns ks)) (field_row parse_int parse_float to_number d f)
    unfolding field_row field_control
    field-Owns d f h =
        let P = Owns ks in
        let v = field_value f d.draft in
        let dirty = is_some (get f.key d.draft) in
        let help = when (truthy f.help) (View.says f.help ∷ []) in
        let button =
          when (shows_reset f d.draft)
            (View.button (text "Reset to default") true (reset f.key) ∷ []) in
        (
          tt,
          (
            tt,
            Raises-append P (source_badge f.source dirty) _ (source-Owns f.source dirty) (
                Raises-append P (apply_badge f.apply) _ (apply-Owns f.apply) (
                  Raises-append P button _ (Raises-when P (shows_reset f d.draft) _ (λ e. (h, tt)))
                    (Raises-append P (control_by parse_int parse_float to_number f.type f v) _
                      (control-Owns f.type f v h)
                      (Raises-append P help _ (Raises-when P (truthy f.help) _ (λ e. (tt, tt))) (
                        Raises-when_some P _ (get f.key d.errors)
                          λ m. Raises-when P (truthy m) _ λ e. (tt, tt)))))),
          ),
        )

    rows-Owns :
        (d : Draft) (fs : List Field)
        → All (λ (f : Field). includes_text ks f.key ≡ true) fs
        → All (Raises (Owns ks)) (rows_view parse_int parse_float to_number d fs)
    unfolding rows_view
    rows-Owns d [] h = tt
    rows-Owns d (f ∷ fs) h =
        Raises-append (Owns ks) (field_row parse_int parse_float to_number d f) _
          (field-Owns d f h.0) (rows-Owns d fs h.1)

    threshold-Owns :
        (k t : Text)
        → includes_text ks k ≡ true
        → Owns ks (edit (threshold_edit parse_int parse_float to_number k t))
    unfolding threshold_edit
    threshold-Owns k [] h = h
    threshold-Owns k (c ∷ t) h = h

    triggers-Owns :
        (lower : Text → Text) (d : Draft) (fs : List Field) (kinds : List Text)
        → All (λ k. includes_text ks k ≡ true) (all_keys kinds)
        → All
            (Raises (Owns ks))
            (concat_map (trigger_row parse_int parse_float to_number lower fs d) kinds)
    unfolding trigger_row trigger_keys
    triggers-Owns lower d fs [] h = tt
    triggers-Owns lower d fs (kind ∷ kinds) h = (
      tt,
      (
        (λ t. threshold-Owns _ t h.0),
        ((λ b. h.1.0), ((λ b. h.1.1.0), triggers-Owns lower d fs kinds h.1.1.1)),
      ),
    )

    says-Owns :
        (f : Text → Text) (ts : List Text) → All (Raises (Owns ks)) (map (λ k. View.says (f k)) ts)
    says-Owns f [] = tt
    says-Owns f (t ∷ ts) = (tt, says-Owns f ts)

    monitor-Owns :
        (lower : Text → Text) (d : Draft) (fs : List Field)
        → All (λ (f : Field). includes_text ks f.key ≡ true) (plain_fields fs)
        → All (λ k. includes_text ks k ≡ true) (all_keys trigger_kinds)
        → All (Raises (Owns ks)) (monitor_view parse_int parse_float to_number lower d fs)
    unfolding monitor_view
    monitor-Owns lower d fs h k =
        Raises-append (Owns ks) (rows_view parse_int parse_float to_number d (plain_fields fs)) _
          (rows-Owns d (plain_fields fs) h)
          (
            tt,
            Raises-append (Owns ks)
                (concat_map (trigger_row parse_int parse_float to_number lower fs d) trigger_kinds)
                _ (triggers-Owns lower d fs trigger_kinds k)
                (says-Owns _ (monitor_errors d.errors)),
          )

includes_text-both :
    (xs ys : List Text) (k : Text)
    → includes_text (xs ++ ys) k ≡ (includes_text xs k || includes_text ys k)
unfolding includes_text
includes_text-both [] ys k = refl
includes_text-both (x ∷ xs) ys k = ground (arith, includes_text-both xs ys k)

All-weaker : {P Q : Text → Type 0} (ks : List Text) → ((k : Text) → P k → Q k) → All P ks → All Q ks
All-weaker [] f h = tt
All-weaker (k ∷ ks) f h = (f k h.0, All-weaker ks f h.1)

All-itself : (ks : List Text) → All (λ k. includes_text ks k ≡ true) ks
unfolding includes_text
All-itself [] = tt
All-itself (k ∷ ks) =
    (ground (arith, same_refl k), All-weaker ks (λ j h. ground (arith, h)) (All-itself ks))

All-left : (ks js : List Text) → All (λ k. includes_text (ks ++ js) k ≡ true) ks
All-left ks js =
    All-weaker ks (λ k h. includes_text-both ks js k ∙ ground (arith, h)) (All-itself ks)

All-right : (ks js : List Text) → All (λ k. includes_text (ks ++ js) k ≡ true) js
All-right ks js =
    All-weaker js (λ k h. includes_text-both ks js k ∙ ground (arith, h)) (All-itself js)

All-keys :
    (P : Text → Type 0) (fs : List Field)
    → All P (map (λ (f : Field). f.key) fs)
    → All (λ (f : Field). P f.key) fs
All-keys P [] h = tt
All-keys P (f ∷ fs) h = (h.0, All-keys P fs h.1)

-- What an event of a tab leaves as it is: the unsaved value and the error of every key that is not
-- the tab's.
abbrev pub Keeps : Group → Draft → Event → Type 0
Keeps g d e =
    (parse_int : Text → ℕ) (stored : List ServerRow) (k : Text)
    → includes_text (own_keys g) k ≡ false
    → (get k (handle parse_int stored (in_field e) d).draft ≡ get k d.draft)
      × (get k (handle parse_int stored (in_field e) d).errors ≡ get k d.errors)

apart :
    (ks : List Text) (j k : Text)
    → includes_text ks j ≡ true
    → includes_text ks k ≡ false
    → same j k ≡ false
apart ks j k h e = ground (arith, same_iff j k, h, e)

get-drop_error : (j k : Text) (o : Obj Text) → same j k ≡ false → get k (drop_error j o) ≡ get k o
unfolding drop_error
get-drop_error j k o h = ground (arith, get-del j k o, h)

owned-Keeps : (g : Group) (d : Draft) (e : Event) → Owns (own_keys g) e → Keeps g d e
unfolding handle replay set_value clear_value
owned-Keeps g d (edit (assign j v)) h parse_int stored k e =
    let a = apart (own_keys g) j k h e in
    (ground (arith, get-put j k v d.draft, a), get-drop_error j k d.errors a)
owned-Keeps g d (edit (discard j)) h parse_int stored k e =
    let a = apart (own_keys g) j k h e in (ground (arith, get-del j k d.draft, a), refl)
owned-Keeps g d (reset j) h parse_int stored k e = (refl, refl)

module _ (parse_int parse_float to_number lower : Text → Text) where
  tab-Owns :
      (is_monitor : Bool) (d : Draft) (fs : List Field)
      → All
          (Raises (
            Owns (
              map (λ (f : Field). f.key) fs
              ++ (if is_monitor then all_keys trigger_kinds else []))))
          (if is_monitor
            then monitor_view parse_int parse_float to_number lower d fs
            else rows_view parse_int parse_float to_number d
                (filter (λ (f : Field). not (is_servers f.type)) fs))
  unfolding plain_fields
  tab-Owns true d fs =
      let ks = map (λ (f : Field). f.key) fs in
      let all = ks ++ all_keys trigger_kinds in
      monitor-Owns parse_int parse_float to_number all lower d fs
        (All-kept _ _ fs
          (All-keys (λ k. includes_text all k ≡ true) fs (All-left ks (all_keys trigger_kinds))))
        (All-right ks (all_keys trigger_kinds))
  tab-Owns false d fs =
      let ks = map (λ (f : Field). f.key) fs in
      rows-Owns parse_int parse_float to_number (ks ++ []) d _
        (All-kept _ _ fs (All-keys (λ k. includes_text (ks ++ []) k ≡ true) fs (All-left ks [])))

-- Whatever the fields of a tab raise, an edit or a reset, leaves the unsaved value and the error of
-- every key that is none of the tab's fields as they are, nor on the tab "monitor" of the log
-- triggers.
pub group_fields-Keeps :
    (parse_int parse_float to_number lower : Text → Text) (d : Draft) (g : Group)
    → All (Raises (Keeps g d)) (group_fields parse_int parse_float to_number lower d g)
unfolding group_fields
group_fields-Keeps parse_int parse_float to_number lower d g =
    Raises-weaker (owned-Keeps g d) _
      (tab-Owns parse_int parse_float to_number lower (same g.id (text "monitor")) d g.fields)

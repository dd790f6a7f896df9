-- ===== src/Schedule/Validate/Keeps.antt =====
-- A form that passes validation loses none of its rows when it is serialized.
use scrapydweb.Base.{
  ℕ, suc, ◌≡◌, refl, sym, ap, ◌∙◌, Bool, true, false, not, List, [], ◌∷◌, ◌++◌, map, Text, truthy,
  includes_text, all, All, all-All, filter, filter-All, Obj, put_all, Misses, put-Misses,
  Misses-append, arith, &&-true, append-nil, append_assoc,
}
use scrapydweb.Catalogue.Keys.{setting_key_re, arg_key_re, reserved_arg_keys}
use scrapydweb.Payload.{Row, ScheduleForm}
use scrapydweb.Payload.Form.{is_filled, pair, args_object}
use scrapydweb.Schedule.Validate.{
  Issue, when, arg_issues, refine_issues, setting_issues, setting_row, arg_row, fields_fit,
  is_empty, is_valid, duplicate_argument, reserved_name, key,
}

is_empty-append :
    (xs ys : List Issue) → is_empty (xs ++ ys) ≡ true → (is_empty xs ≡ true) × (is_empty ys ≡ true)
is_empty-append [] ys h = (refl, h)
is_empty-append (x ∷ xs) ys h = cc

is_empty-when : (b : Bool) (i : Issue) → is_empty (when b i) ≡ true → b ≡ false
is_empty-when true i h = cc
is_empty-when false i h = refl

-- no key of the rows was seen before, none occurs twice, and none is reserved
abbrev Fresh : List Text → List Row → Type 0
Fresh seen [] = Unit
Fresh seen (r ∷ rows) =
    (includes_text seen r.key ≡ false)
    × (includes_text reserved_arg_keys r.key ≡ false)
    × Fresh (r.key ∷ seen) rows

arg_issues-Fresh :
    (seen : List Text) (i : ℕ) (rows : List Row)
    → is_empty (arg_issues seen i rows) ≡ true
    → Fresh seen rows
unfolding arg_issues
arg_issues-Fresh seen i [] h = tt
arg_issues-Fresh seen i (r ∷ rows) h =
    let (a, b) = is_empty-append (when (includes_text seen r.key) (duplicate_argument i key)) _ h in
    let (c, d) =
      is_empty-append (when (includes_text reserved_arg_keys r.key) (reserved_name i key)) _ b in
    (
      is_empty-when (includes_text seen r.key) (duplicate_argument i key) a,
      is_empty-when (includes_text reserved_arg_keys r.key) (reserved_name i key) c,
      arg_issues-Fresh (r.key ∷ seen) (suc i) rows d,
    )

-- Fresh rows become an object's pairs one by one, none overwriting another.
put_all-Fresh :
    (seen : List Text) (o : Obj Text) (rows : List Row)
    → ((k : Text) → includes_text seen k ≡ false → Misses o k)
    → Fresh seen rows
    → put_all (map pair rows) o ≡ o ++ map pair rows
unfolding put_all
put_all-Fresh seen o [] h f = sym (append-nil o)
put_all-Fresh seen o (r ∷ rows) h f =
    ap (put_all (map pair rows)) (put-Misses r.key r.value o (h r.key f.0))
    ∙ put_all-Fresh (r.key ∷ seen) (o ++ pair r ∷ []) rows
        (λ k e.
          Misses-append o r.key r.value k (h k (unfold includes_text in ground arith))
            (unfold includes_text in ground arith))
        f.2
    ∙ append_assoc o (pair r ∷ []) (map pair rows)

truthy-key : (s : Text) → arg_key_re s ≡ true → truthy s ≡ true
unfolding arg_key_re
truthy-key [] h = cc
truthy-key (c ∷ s) h = refl

truthy-setting_key : (s : Text) → setting_key_re s ≡ true → truthy s ≡ true
unfolding setting_key_re
truthy-setting_key [] h = cc
truthy-setting_key (c ∷ s) h = refl

filled-arg : (r : Row) → arg_row r ≡ true → is_filled r ≡ true
unfolding arg_row is_filled
filled-arg r h = ground (arith, truthy-key r.key)

filled-setting : (r : Row) → setting_row r ≡ true → is_filled r ≡ true
unfolding setting_row is_filled
filled-setting r h = ground (arith, truthy-setting_key r.key)

All-map {ℓ κ} :
    {A : Type ℓ} (P Q : A → Type κ) (xs : List A) → ((x : A) → P x → Q x) → All P xs → All Q xs
All-map P Q [] f p = tt
All-map P Q (x ∷ xs) f p = (f x p.0, All-map P Q xs f p.1)

filter-filled :
    (test : Row → Bool) (rows : List Row)
    → ((r : Row) → test r ≡ true → is_filled r ≡ true)
    → all test rows ≡ true
    → filter is_filled rows ≡ rows
filter-filled test rows f h =
    filter-All is_filled rows
      (All-map (λ r. test r ≡ true) (λ r. is_filled r ≡ true) rows f (all-All test rows h))

Fresh-unreserved :
    (seen : List Text) (rows : List Row)
    → Fresh seen rows
    → all (λ r. not (includes_text reserved_arg_keys r.key)) rows ≡ true
unfolding all
Fresh-unreserved seen [] f = refl
Fresh-unreserved seen (r ∷ rows) f = rw f.1 (Fresh-unreserved (r.key ∷ seen) rows f.2)

args_object-Fresh :
    (rows : List Row)
    → filter is_filled rows ≡ rows
    → Fresh [] rows
    → args_object rows ≡ map pair rows
unfolding args_object
args_object-Fresh rows e f =
    ap (λ (t : List Row). put_all (map pair t) []) e ∙ put_all-Fresh [] [] rows (λ k _. tt) f

module _ (is_nan : Text → Bool) where
  -- In a valid form every row is filled, so the filters drop none, the object of arguments has each
  -- row's pair, in order, and no argument has a reserved key.
  pub valid_keeps :
      (v : ScheduleForm)
      → is_valid is_nan v ≡ true
      → (filter is_filled v.settings ≡ v.settings)
        × (filter is_filled v.args ≡ v.args)
        × (args_object v.args ≡ map pair v.args)
        × (all (λ r. not (includes_text reserved_arg_keys r.key)) v.args ≡ true)
  unfolding is_valid fields_fit refine_issues
  valid_keeps v h =
      let (fit, none_left) = &&-true (fields_fit v) (is_empty (refine_issues is_nan v)) h in
      let settings : all setting_row v.settings ≡ true = ground arith in
      let args : all arg_row v.args ≡ true = ground arith in
      let fresh =
        arg_issues-Fresh [] 0 v.args
          (is_empty-append (setting_issues is_nan [] 0 v.settings) (arg_issues [] 0 v.args)
            none_left).1 in
      let kept = filter-filled arg_row v.args filled-arg args in
      (
        filter-filled setting_row v.settings filled-setting settings,
        kept,
        args_object-Fresh v.args kept fresh,
        Fresh-unreserved [] v.args fresh,
      )

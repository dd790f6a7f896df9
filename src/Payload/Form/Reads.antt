-- ===== src/Payload/Form/Reads.antt =====
-- What the check endpoint reads out of the posted form: the selected nodes, the trigger, the task.
use scrapydweb.Base.{
  ℕ, zero, suc, ◌≡◌, refl, ◌∙◌, ap, Bool, true, false, List, [], ◌∷◌, Option, none, some, Text,
  text, get, assigned, first_some, Misses, get-put_all, assigned-Misses, get-Misses, includes, All,
  arith, same, same-eq, all, all-All, same_refl, &&-true, same_sym, if◌then◌else◌, ◌==◌, ==_iff,
  Bool-cases, inl, inr, not,
}
use scrapydweb.Js.Decimal.{is_digit, show, show-digits, show_injective}
use scrapydweb.Payload.{Mode, now, cron, ScheduleForm, action_text}
use scrapydweb.Payload.Form.{
  base_fields, node_fields, task_fields, cron_fields, mode_fields, build_schedule_form,
}

-- a key that begins with no digit
abbrev pub is_word : Text → Bool
is_word [] = false
is_word (c ∷ s) = not (is_digit c)

same-word_show : (k : Text) (n : ℕ) → is_word k ≡ true → same k (show n) ≡ false
same-word_show k n h = go k (show n) h (show-digits n)
  where
    go : (k s : Text) → is_word k ≡ true → All (λ c. is_digit c ≡ true) s → same k s ≡ false
    go [] s h d = cc
    go (c ∷ k) [] h d = unfold same in refl
    go (c ∷ k) (e ∷ s) h d = unfold same in ground (arith, d.0)

same-show : (m n : ℕ) → same (show m) (show n) ≡ (m == n)
same-show m n = elim (Bool-cases (m == n)) [
  | inl e ↦ rw e (cc (same_refl (show m), ap show ((==_iff m n).0 e)))
  | inr e ↦ elim (Bool-cases (same (show m) (show n))) [
    | inr f ↦ rw (e, f)
    | inl f ↦ absurd (ground (arith, show_injective m n (same-eq (show m) (show n) f)))
  ]
]

assigned-node_fields :
    (ns : List ℕ) (n : ℕ)
    → assigned (node_fields ns) (show n) ≡ (if includes ns n then some (text "on") else none)
unfolding node_fields assigned includes
assigned-node_fields [] n = refl
assigned-node_fields (m ∷ ns) n = ground (arith, assigned-node_fields ns n, same-show m n)

Misses-nodes : (ns : List ℕ) (k : Text) → is_word k ≡ true → Misses (node_fields ns) k
unfolding node_fields
Misses-nodes [] k h = tt
Misses-nodes (n ∷ ns) k h = (rw (same_sym (show n) k) (same-word_show k n h), Misses-nodes ns k h)

words : List (Text × Text) → Bool
words = all (λ p. is_word p.0)

task-words :
    (t : Option ℕ) (v : ScheduleForm) → words (cron_fields (record v { task_id = t })) ≡ true
unfolding words all cron_fields task_fields is_digit
task-words none v = refl
task-words (some zero) v = refl
task-words (some (suc n)) v = refl

mode-words : (m : Mode) (v : ScheduleForm) → words (mode_fields m v) ≡ true
unfolding mode_fields
mode-words now v = unfold words all in refl
mode-words cron v = task-words v.task_id v

base-words : (v : ScheduleForm) → words (base_fields v) ≡ true
unfolding words all base_fields is_digit
base-words v = refl

Misses-words : (ps : List (Text × Text)) (n : ℕ) → words ps ≡ true → Misses ps (show n)
unfolding words
Misses-words ps n h = go ps (all-All (λ p. is_word p.0) ps h)
  where
    go : (qs : List (Text × Text)) → All (λ p. is_word p.0 ≡ true) qs → Misses qs (show n)
    go [] w = tt
    go ((k, v) ∷ qs) w = (same-word_show k n w.0, go qs w.1)

-- Node `n` is switched on in the posted form exactly when it is one of the selected nodes.
pub get-node :
    (v : ScheduleForm) (n : ℕ)
    → get (show n) (build_schedule_form v) ≡ (if includes v.nodes n then some (text "on") else none)
unfolding build_schedule_form
get-node v n =
    rw
      (
        get-put_all,
        assigned-Misses _ _ (Misses-words (mode_fields v.mode v) n (mode-words v.mode v)),
        get-put_all,
        assigned-node_fields,
        get-Misses _ _ (Misses-words (base_fields v) n (base-words v)),
      )
      (go (includes v.nodes n))
  where
    go :
        (b : Bool)
        → first_some (if b then some (text "on") else none) none
          ≡ (if b then some (text "on") else none)
    go true = refl
    go false = refl

-- A field that is no node's is read past the nodes.
pub get-word :
    (k : Text) (v : ScheduleForm)
    → is_word k ≡ true
    → get k (build_schedule_form v)
      ≡ first_some (assigned (mode_fields v.mode v) k) (get k (base_fields v))
unfolding build_schedule_form
get-word k v h =
    rw
      (get-put_all, get-put_all, assigned-Misses (node_fields v.nodes) k (Misses-nodes v.nodes k h))

abbrev pub is_cron : Mode → Bool
is_cron now = false
is_cron cron = true

-- `v.taskId ? … : undefined`
abbrev pub task_only : Option ℕ → (ℕ → Text) → Option Text
task_only none f = none
task_only (some zero) f = none
task_only (some (suc n)) f = some (f (suc n))

-- The fields of a timer task, with the values that the endpoint is to read.
abbrev pub timer_fields : ScheduleForm → Option ℕ → List (Text × Option Text)
timer_fields v t =
    (text "trigger", some (text "cron"))
    ∷ (text "action", some (action_text v.action))
    ∷ (text "name", some v.name)
    ∷ (text "task_id", task_only t show)
    ∷ (text "replace_existing", task_only t (λ _. text "True"))
    ∷ (text "year", some v.year)
    ∷ (text "month", some v.month)
    ∷ (text "day", some v.day)
    ∷ (text "week", some v.week)
    ∷ (text "day_of_week", some v.day_of_week)
    ∷ (text "hour", some v.hour)
    ∷ (text "minute", some v.minute)
    ∷ (text "second", some v.second)
    ∷ []

abbrev Reads : (Text → Option Text) → Bool → List (Text × Option Text) → Type 0
Reads read b ps = All (λ p. read p.0 ≡ (if b then p.1 else none)) ps

-- the form without its node fields
past_nodes : Mode → ScheduleForm → Text → Option Text
past_nodes m v k = first_some (assigned (mode_fields m v) k) (get k (base_fields v))

cron-Reads :
    (t : Option ℕ) (v : ScheduleForm)
    → Reads (past_nodes cron (record v { task_id = t })) true (timer_fields v t)
unfolding past_nodes mode_fields assigned get base_fields cron_fields same task_fields
cron-Reads none v = (
  refl,
  (
    refl,
    (refl, (refl, (refl, (refl, (refl, (refl, (refl, (refl, (refl, (refl, (refl, tt))))))))))),
  ),
)
cron-Reads (some zero) v = (
  refl,
  (
    refl,
    (refl, (refl, (refl, (refl, (refl, (refl, (refl, (refl, (refl, (refl, (refl, tt))))))))))),
  ),
)
cron-Reads (some (suc n)) v = (
  refl,
  (
    refl,
    (refl, (refl, (refl, (refl, (refl, (refl, (refl, (refl, (refl, (refl, (refl, tt))))))))))),
  ),
)

now-Reads : (t : Option ℕ) (v : ScheduleForm) → Reads (past_nodes now v) false (timer_fields v t)
unfolding past_nodes mode_fields assigned get base_fields same
now-Reads t v = (
  refl,
  (
    refl,
    (refl, (refl, (refl, (refl, (refl, (refl, (refl, (refl, (refl, (refl, (refl, tt))))))))))),
  ),
)

mode-Reads :
    (m : Mode) (v : ScheduleForm) → Reads (past_nodes m v) (is_cron m) (timer_fields v v.task_id)
mode-Reads now v = now-Reads v.task_id v
mode-Reads cron v = cron-Reads v.task_id v

-- Each field of a timer task has the form's value when the form is in cron mode and is absent
-- otherwise; the task's id and `replace_existing` need a task id that is not 0.
pub timer_lem :
    (v : ScheduleForm)
    → All
        (λ p. get p.0 (build_schedule_form v) ≡ (if is_cron v.mode then p.1 else none))
        (timer_fields v v.task_id)
timer_lem v = go (timer_fields v v.task_id) (unfold is_digit all in refl) (mode-Reads v.mode v)
  where
    go :
        (ps : List (Text × Option Text))
        → all (λ p. is_word p.0) ps ≡ true
        → Reads (past_nodes v.mode v) (is_cron v.mode) ps
        → Reads (λ k. get k (build_schedule_form v)) (is_cron v.mode) ps
    go [] w r = tt
    go ((k, o) ∷ ps) w r =
        let (w', ws) = &&-true (is_word k) (all (λ p. is_word p.0) ps) (unfold all in w) in
        (get-word k v w' ∙ unfold past_nodes in r.0, go ps ws r.1)

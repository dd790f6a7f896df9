-- ===== src/Alerts/Rule/RoundTrip.antt =====
-- Saving a rule that was opened and not changed keeps it.
use scrapydweb.Base.{
  ℕ, zero, suc, ◌≡◌, refl, ap, ◌∙◌, Bool, true, false, Option, none, some, List, [], ◌∷◌, Text,
  same, Obj, get, All, if◌then◌else◌, or_else,
}
use scrapydweb.Js.Decimal.{show}
use scrapydweb.Js.Strings.{trim}
use scrapydweb.Js.Trim.{truthy-trim-show}
use scrapydweb.Api.Types.{AlertRule, AlertThresholdSpec, ThresholdAction, alert, stop, forcestop}
use scrapydweb.Alerts.Rule.{
  kinds, ThresholdRow, row_of, rows_of, open_rule, Number, whole, RuleBody, good, null_alert,
  is_blank, collect_row, collect, rule_body, send, outcome, save, finished_of, finished_body, shown,
  is_set, texts_or,
}

abbrev normal : Option ThresholdAction → Option ThresholdAction
normal (some stop) = some stop
normal (some forcestop) = some forcestop
normal _ = none

abbrev kept_spec :
    Text → ℕ → Option ThresholdAction → Obj AlertThresholdSpec → Obj AlertThresholdSpec
kept_spec k zero a rest = rest
kept_spec k (suc n) a rest = (k, record { threshold = suc n; action = normal a }) ∷ rest

abbrev kept_entry :
    Text → Option AlertThresholdSpec → Obj AlertThresholdSpec → Obj AlertThresholdSpec
kept_entry k none rest = rest
kept_entry k (some spec) rest = kept_spec k spec.threshold spec.action rest

-- The thresholds over 0 of the known kinds, in their order, with "alert" and no action as one.
unfoldable pub kept : List Text → Obj AlertThresholdSpec → Obj AlertThresholdSpec
kept [] th = []
kept (k ∷ ks) th = kept_entry k (get k th) (kept ks th)

null_alert-or : (a : Option ThresholdAction) → null_alert (or_else a alert) ≡ normal a
null_alert-or none = refl
null_alert-or (some alert) = refl
null_alert-or (some stop) = refl
null_alert-or (some forcestop) = refl

blank-show : (n : ℕ) → is_blank (show n) ≡ false
unfolding is_blank
blank-show n = rw (truthy-trim-show n) refl

abbrev whole_of : Option ℕ → Option Number
whole_of none = none
whole_of (some n) = some (whole n)

-- The body that has the rule's own fields.
unfoldable pub saved_rule : AlertRule → RuleBody
unfolding kept
saved_rule r = record {
  name = r.name;
  project_pattern = r.project_pattern;
  spider_pattern = r.spider_pattern;
  thresholds = kept kinds r.thresholds;
  on_finished = r.on_finished;
  on_running_interval = whole_of r.on_running_interval;
  channels = r.channels;
}

finished-back : (o : Option Bool) → finished_body (finished_of o) ≡ o
finished-back none = refl
finished-back (some true) = refl
finished-back (some false) = refl

channels-back : (o : Option (List Text)) → (if is_set o then some (texts_or o) else none) ≡ o
channels-back none = refl
channels-back (some c) = refl

module _ (number : Text → Number) (reads : (n : ℕ) → number (show n) ≡ whole n) where
  row-kept :
      (k : Text) (n : ℕ) (a : Option ThresholdAction) (th : Obj AlertThresholdSpec)
      → collect_row number k
          (record { threshold = show n; action = or_else a alert })
          (whole n)
          (good th)
        ≡ good (kept_spec k n a th)
  row-kept k zero a th = refl
  row-kept k (suc n) a th = rw (null_alert-or a)

  turn :
      (k : Text) (o : Option AlertThresholdSpec) (th : Obj AlertThresholdSpec)
      → (if is_blank (row_of o).threshold
          then good th
          else collect_row number k (row_of o) (number (row_of o).threshold) (good th))
        ≡ good (kept_entry k o th)
  unfolding row_of
  turn k none th = unfold is_blank trim in refl
  turn k (some spec) th =
      rw (blank-show spec.threshold, reads spec.threshold)
        (row-kept k spec.threshold spec.action th)

  collect-kept :
      (ks : List Text) (rows : Obj ThresholdRow) (th : Obj AlertThresholdSpec)
      → All (λ k. get k rows ≡ some (row_of (get k th))) ks
      → collect number ks rows ≡ good (kept ks th)
  unfolding collect kept
  collect-kept [] rows th h = refl
  collect-kept (k ∷ ks) rows th h =
      rw (h.0, collect-kept ks rows th h.1) (turn k (get k th) (kept ks th))

  rows-found :
      (th : Obj AlertThresholdSpec)
      → All (λ k. get k (rows_of kinds th) ≡ some (row_of (get k th))) kinds
  unfolding rows_of get same
  rows-found th = (refl, (refl, (refl, (refl, (refl, (refl, tt))))))

  interval-back :
      (o : Option ℕ) → (if is_blank (shown o) then none else some (number (shown o))) ≡ whole_of o
  interval-back none = unfold is_blank trim in refl
  interval-back (some n) = rw (blank-show n, reads n) refl

  -- When `Number` reads what `String` prints of a number: opening a rule and saving it at once sends the
  -- rule's own fields, and of its thresholds those over 0, for the known kinds, with "alert" sent as null.
  pub save-open_rule : (r : AlertRule) → save number (open_rule r) ≡ send (saved_rule r)
  unfolding save open_rule rule_body saved_rule
  save-open_rule r =
      ap (outcome number (open_rule r))
        (collect-kept kinds (rows_of kinds r.thresholds) r.thresholds (rows-found r.thresholds))
      ∙ (λ i. send (record {
        name = r.name;
        project_pattern = r.project_pattern;
        spider_pattern = r.spider_pattern;
        thresholds = kept kinds r.thresholds;
        on_finished = finished-back r.on_finished i;
        on_running_interval = interval-back r.on_running_interval i;
        channels = channels-back r.channels i;
      }))

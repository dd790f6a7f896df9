-- ===== src/Schedule/Cron.antt =====
-- `useCronPreview` and `CronPreview`: the delayed query of the next runs.
use scrapydweb.Base.{
  ◌≡◌, refl, Bool, true, false, Option, none, some, List, [], ◌∷◌, map, Text, text, same, ◌&&◌,
  same_iff, arith, ◌∙◌, ap,
}
use scrapydweb.Js.View.{Shown, when, when_some}
use scrapydweb.Js.View

pub record CronSpec : Type 0 where
  pub minute : Text
  pub hour : Text
  pub day : Text
  pub month : Text
  pub day_of_week : Text
  pub second : Text
  pub week : Text
  pub year : Text

-- The hook: the spec of the last render, the one that is asked for, and the timer that is set.
pub record PreviewState : Type 0 where
  pub spec : CronSpec
  pub debounced : CronSpec
  pub timer : Option CronSpec

-- the first render sets a timer with its own spec
unfoldable pub mount : CronSpec → PreviewState
mount spec = record { spec = spec; debounced = spec; timer = some spec }

pub data Event : Type 0 where
  renders : CronSpec → Event
  timeout : Event

-- Two specs have one JSON text when they are the same fields.
unfoldable pub is_same_spec : CronSpec → CronSpec → Bool
unfolding same
is_same_spec a b =
    same a.minute b.minute
    && same a.hour b.hour
    && same a.day b.day
    && same a.month b.month
    && same a.day_of_week b.day_of_week
    && same a.second b.second
    && same a.week b.week
    && same a.year b.year

-- a render with another key clears the timer and sets one of its own; a timeout takes the timer's spec
abbrev rerender : Bool → CronSpec → PreviewState → PreviewState
rerender true spec s = record s { spec = spec }
rerender false spec s = record s { spec = spec; timer = some spec }

abbrev fire : Option CronSpec → PreviewState → PreviewState
fire none s = s
fire (some spec) s = record s { debounced = spec; timer = none }

unfoldable pub handle : Event → PreviewState → PreviewState
unfolding is_same_spec
handle (renders spec) s = rerender (is_same_spec s.spec spec) spec s
handle timeout s = fire s.timer s

unfoldable pub run : List Event → PreviewState → PreviewState
unfolding handle
run [] s = s
run (e ∷ es) s = run es (handle e s)

-- The timer that is set holds the spec of the last render; without a timer that spec is asked for.
abbrev pub Follows : Option CronSpec → PreviewState → Type 0
Follows none s = s.debounced ≡ s.spec
Follows (some t) s = t ≡ s.spec

is_same_spec-eq : (a b : CronSpec) → is_same_spec a b ≡ true → a ≡ b
unfolding is_same_spec
is_same_spec-eq a b h = ground (
  arith,
  h,
  same_iff a.minute b.minute,
  same_iff a.hour b.hour,
  same_iff a.day b.day,
  same_iff a.month b.month,
  same_iff a.day_of_week b.day_of_week,
  same_iff a.second b.second,
  same_iff a.week b.week,
  same_iff a.year b.year,
)

-- the spec of the last render
unfoldable pub last_spec : List Event → CronSpec → CronSpec
last_spec [] c = c
last_spec (renders d ∷ es) c = last_spec es d
last_spec (timeout ∷ es) c = last_spec es c

rerender-Follows :
    (b : Bool) (d : CronSpec) (s : PreviewState)
    → (b ≡ true → s.spec ≡ d)
    → Follows s.timer s
    → Follows (rerender b d s).timer (rerender b d s)
rerender-Follows false d s e f = refl
rerender-Follows true d s e f = go s.timer f
  where
    go : (t : Option CronSpec) → Follows t s → Follows t (record s { spec = d })
    go none f = f ∙ e refl
    go (some t) f = f ∙ e refl

fire-Follows :
    (t : Option CronSpec) (s : PreviewState)
    → Follows s.timer s
    → Follows t s
    → Follows (fire t s).timer (fire t s)
fire-Follows none s f g = f
fire-Follows (some c) s f g = g

handle-Follows :
    (e : Event) (s : PreviewState) → Follows s.timer s → Follows (handle e s).timer (handle e s)
unfolding handle
handle-Follows (renders d) s f =
    rerender-Follows (is_same_spec s.spec d) d s (is_same_spec-eq s.spec d) f
handle-Follows timeout s f = fire-Follows s.timer s f f

run-Follows :
    (es : List Event) (s : PreviewState) → Follows s.timer s → Follows (run es s).timer (run es s)
unfolding run
run-Follows [] s f = f
run-Follows (e ∷ es) s f = run-Follows es (handle e s) (handle-Follows e s f)

spec-rerender : (b : Bool) (d : CronSpec) (s : PreviewState) → (rerender b d s).spec ≡ d
spec-rerender true d s = refl
spec-rerender false d s = refl

spec-fire : (t : Option CronSpec) (s : PreviewState) → (fire t s).spec ≡ s.spec
spec-fire none s = refl
spec-fire (some c) s = refl

spec-run : (es : List Event) (s : PreviewState) → (run es s).spec ≡ last_spec es s.spec
unfolding run handle last_spec
spec-run [] s = refl
spec-run (renders d ∷ es) s =
    spec-run es (handle (renders d) s)
    ∙ ap (last_spec es) (spec-rerender (is_same_spec s.spec d) d s)
spec-run (timeout ∷ es) s = spec-run es (handle timeout s) ∙ ap (last_spec es) (spec-fire s.timer s)

debounced-fire :
    (t : Option CronSpec) (s : PreviewState) → Follows t s → (fire t s).debounced ≡ s.spec
debounced-fire none s f = f
debounced-fire (some c) s f = f

-- However often the form is rendered and the timer fires, the next timeout makes the query ask for
-- the cron fields of the last render.
pub debounced-timeout :
    (c : CronSpec) (es : List Event)
    → (handle timeout (run es (mount c))).debounced ≡ last_spec es c
unfolding handle mount
debounced-timeout c es =
    debounced-fire (run es (mount c)).timer (run es (mount c)) (run-Follows es (mount c) refl)
    ∙ spec-run es (mount c)

-- `CronPreview`, for the answer that the query has
pub data Answer : Type 0 where
  ok : (next_runs : List Text) → Answer
  error : (message : Text) → Answer
  other : Answer

unfoldable pub preview_view : Option Answer → List (Shown (Unit {0}))
preview_view none = View.says (text "Next runs") ∷ View.says (text "…") ∷ []
preview_view (some (ok [])) =
    View.says (text "Next runs") ∷ View.says (text "never fires — check the fields") ∷ []
preview_view (some (ok (t ∷ ts))) = View.says (text "Next runs") ∷ map View.says (t ∷ ts)
preview_view (some (error m)) = View.says (text "Next runs") ∷ View.says m ∷ []
preview_view (some other) = View.says (text "Next runs") ∷ []

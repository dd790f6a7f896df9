-- ===== src/Log/Panel.antt =====
-- The panel of a job's statistics: names and badges of the categories, tones, texts and the points of
-- the chart.
use scrapydweb.Base.{
  ℕ, zero, suc, Bool, true, not, ◌&&◌, ◌||◌, Option, none, some, List, [], ◌∷◌, ◌++◌, map, Text,
  text, truthy, or_text, or_else, same, ltb, if◌then◌else◌, any, length,
}
use scrapydweb.Js.Strings.{contains}
use scrapydweb.Js.Decimal.{show}
use scrapydweb.Shared.Reason.{is_failed_reason}

pub data Mode : Type 0 where
  stats utf8 : Mode

-- `LogPage`: the view in the path, and the path of another view
unfoldable pub mode : Option Text → Mode
mode none = utf8
mode (some opt) = if same opt (text "stats") then stats else utf8

abbrev mode_text : Mode → Text
mode_text stats = text "stats"
mode_text utf8 = text "utf8"

unfoldable pub mode_path : ℕ → Mode → Text → Text → Text → Bool → Text
mode_path node m project spider job finished =
    text "/log/"
    ++ (show node
        ++ (text "/"
            ++ (mode_text m
                ++ (text "/"
                    ++ (project
                        ++ (text "/"
                            ++ (spider
                                ++ (text "/"
                                    ++ (job
                                        ++ (if finished then text "?finished=1" else []))))))))))

-- `refetchInterval` of both views, in milliseconds; `none` stops
unfoldable pub log_interval : Mode → Option Bool → Option ℕ
log_interval m (some true) = none
log_interval utf8 _ = some 5000
log_interval stats _ = some 10000

-- the text in front of a suffix
unfoldable pub drop_end : Text → Text → Option Text
unfolding same
drop_end suffix [] = if same suffix [] then some [] else none
drop_end suffix (c ∷ s) =
    let rest = drop_end suffix s in
    if same (c ∷ s) suffix then some [] else elim rest [ none ↦ none | some t ↦ some (c ∷ t) ]

-- `name.replace(/_logs?$/, "")`
unfoldable pub category_name : Text → Text
unfolding drop_end
category_name s = elim (drop_end (text "_log") s) [
  | some t ↦ t
  | none ↦ or_else (drop_end (text "_logs") s) s
]

pub data Variant : Type 0 where
  destructive secondary outline : Variant

abbrev pub has_word : List Text → Text → Bool
unfolding any contains
has_word words s = any (λ w. contains w s) words

unfoldable pub category_badge : Text → ℕ → Variant
category_badge name count =
    if ltb 0 count && has_word (text "critical" ∷ text "error" ∷ []) name
    then destructive
    else if ltb 0 count
        && has_word (text "warning" ∷ text "retry" ∷ text "redirect" ∷ text "ignore" ∷ []) name
    then secondary
    else outline

pub data Tone : Type 0 where
  ok warn muted : Tone

-- the tone of the finish reason
unfoldable pub reason_tone : Option Text → Tone
unfolding is_failed_reason
reason_tone none = muted
reason_tone (some r) =
    if not (truthy r) || same r (text "N/A")
    then muted
    else if is_failed_reason (some r)
    then warn
    else ok

-- `fmt`; how a number is written for the user's locale is a parameter
pub data Figure : Type 0 where
  number : ℕ → Figure
  figure : Text → Figure

module _ (to_locale : ℕ → Text) where
  unfoldable pub fmt : Option Figure → Text
  fmt none = text "N/A"
  fmt (some (number n)) = to_locale n
  fmt (some (figure s)) = s

abbrev skip : ℕ → Text → Text
skip zero s = s
skip (suc n) [] = []
skip (suc n) (c ∷ s) = skip n s

abbrev first : ℕ → Text → Text
first zero s = []
first (suc n) [] = []
first (suc n) (c ∷ s) = c ∷ first n s

pub record Sample : Type 0 where
  pub time : Text
  pub pages : ℕ
  pub pages_rate : ℕ
  pub items : ℕ
  pub items_rate : ℕ

pub record Point : Type 0 where
  pub t : Text
  pub pages : ℕ
  pub items : ℕ

-- `ProgressChart`: the points, and none is drawn for fewer than two
unfoldable pub points : List Sample → List Point
points datas =
    map
      (λ (d : Sample). record {
        t = or_text (first 8 (skip 11 d.time)) d.time;
        pages = d.pages;
        items = d.items;
      })
      datas

unfoldable pub chart : Option (List Sample) → Option (List Point)
unfolding points
chart none = none
chart (some datas) = if ltb (length (points datas)) 2 then none else some (points datas)

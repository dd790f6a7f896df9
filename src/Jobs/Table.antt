-- ===== src/Jobs/Table.antt =====
-- What a row of the table shows, the page while it loads or fails, the reply of an action, and the
-- points of the chart of durations.
use scrapydweb.Base.{
  take, ℕ, Bool, true, false, not, ◌||◌, Option, none, some, or_else, List, [], ◌∷◌, ◌++◌, map,
  Text, text, truthy, same, length, ltb, Obj, filter, if◌then◌else◌,
}
use scrapydweb.Js.View.{Shown}
use scrapydweb.Js.View
use scrapydweb.Js.Decimal.{show}
use scrapydweb.Api.Types.{JobRow}
use scrapydweb.Jobs.Filter.{pill}
use scrapydweb.Jobs.Runtime.{parse_runtime, fmt_duration}
use scrapydweb.Jobs.Actions.{
  RunColor, run_color, version_cell, args_cell, row_actions, RowAction, go_stats, go_log, go_code,
  download, stop, start,
}

-- `Num` and a text that may be null
abbrev pub or_dash : Option Text → Text
or_dash none = text "–"
or_dash (some t) = t

-- the label of an action's button
unfoldable pub action_label : JobRow → RowAction → Text
action_label j (go_stats p) = text "Stats"
action_label j (go_log p) = text "Log"
action_label j (go_code p) = text "View code (" ++ (or_else j.version [] ++ text ")")
action_label j (download u) = text "Download items (.jl)"
action_label j (stop u) = text "Stop"
action_label j (start u) = text "Run again"

abbrev shown_args : Obj Text → List (Shown RowAction)
shown_args [] = []
shown_args ((k, v) ∷ o) = View.says k ∷ View.says v ∷ shown_args o

-- `toLocaleString` of a number and the text of a date are parameters.
module _ (to_locale : ℕ → Text) (fmt_date_time : Option Text → Text) where
  unfoldable pub num : Option ℕ → Text
  num none = text "–"
  num (some n) = to_locale n

  -- the cells of a row, in the order of the columns
  unfoldable pub row_view : ℕ → JobRow → List (Shown RowAction)
  unfolding pill version_cell args_cell row_actions action_label num
  row_view node j =
      View.badge (pill j).label
      ∷ View.says (j.project ++ text "/")
      ∷ View.says j.spider
      ∷ View.says j.job
      ∷ View.says (version_cell j.version)
      ∷ View.says (or_dash (args_cell (length j.args)))
      ∷ (shown_args j.args
          ++ View.says (num j.pages)
            ∷ View.says (num j.items)
            ∷ View.says (or_dash j.runtime)
            ∷ View.says (fmt_date_time j.start)
            ∷ View.says (fmt_date_time j.finish)
            ∷ map (λ a. View.button (action_label j a) true a) (row_actions node j))

-- the headers of the columns
unfoldable pub headers : List Text
headers =
    text "Status"
    ∷ text "Spider"
    ∷ text "Job ID"
    ∷ text "Version"
    ∷ text "Args"
    ∷ text "Pages"
    ∷ text "Items"
    ∷ text "Duration"
    ∷ text "Start"
    ∷ text "Finish"
    ∷ text "Actions"
    ∷ []

-- the table's only row when no job is shown
unfoldable pub empty_text : Text → Text → Text
unfolding same
empty_text q status =
    if truthy q || not (same status (text "all"))
    then text "No jobs match the current filter."
    else text "No jobs on this node yet."

-- What the query holds: nothing yet, an error, or an answer with its status and message.
pub data Loaded : Type 0 where
  loading : Loaded
  failed : (error : Text) → Loaded
  answered :
      (status : Text) → (message : Option Text) → List JobRow → (total pages page : ℕ) → Loaded

-- the text of the card that stands in the table's place, when there is one
unfoldable pub failure : Loaded → Option Text
unfolding same
failure loading = none
failure (failed error) = some error
failure (answered status message jobs total pages page) =
    if same status (text "error")
    then some (or_else message (text "Failed to load jobs."))
    else none

pub data Effect : Type 0 where
  success error : Text → Effect
  refresh_jobs : Effect

-- the reply of an action: its status with its JSON, or an exception
pub data Reply : Type 0 where
  replied : (status : Option Text) → (json : Text) → Reply
  thrown : (message : Text) → Reply

abbrev is_ok : Option Text → Bool
is_ok none = false
is_ok (some s) = same s (text "ok")

unfoldable pub after_action : Text → Reply → List Effect
unfolding same
after_action verb (replied status json) =
    (if is_ok status
      then success (verb ++ text " sent")
      else error (verb ++ (text " failed: " ++ take 200 json)))
    ∷ refresh_jobs
    ∷ []
after_action verb (thrown m) = error (verb ++ (text " failed: " ++ m)) ∷ []

-- A point of the chart: the start's time, the seconds, at least 1, and the color.
pub record Point : Type 0 where
  pub x : ℕ
  pub y : ℕ
  pub fill : RunColor
  pub job : JobRow

abbrev has_start : JobRow → Bool
has_start j = elim j.start [ none ↦ false | some s ↦ truthy s ]

abbrev at_least_one : Option ℕ → ℕ
at_least_one none = 1
at_least_one (some n) = if ltb 1 n then n else 1

-- `time` reads a start, 0 when it is no date.
module _ (number : Text → Option ℕ) (time : Option Text → ℕ) where
  abbrev runtime_of : Option Text → Option ℕ
  runtime_of none = none
  runtime_of (some rt) = parse_runtime number rt

  unfoldable pub points : List JobRow → List Point
  unfolding run_color parse_runtime filter
  points jobs =
      map
        (λ (j : JobRow). record {
          x = time j.start;
          y = at_least_one (runtime_of j.runtime);
          fill = run_color j;
          job = j;
        })
        (filter has_start jobs)

  -- the chart is left out for fewer than two points
  unfoldable pub shows_chart : List JobRow → Bool
  unfolding points
  shows_chart jobs = not (ltb (length (points jobs)) 2)

abbrev or_count : Option ℕ → Text
or_count none = text "–"
or_count (some n) = show n

-- the tooltip of a point
unfoldable pub point_view : Point → List Text
unfolding fmt_duration
point_view p =
    p.job.spider
    ∷ p.job.job
    ∷ (fmt_duration p.y
        ++ (text " · "
            ++ (or_count p.job.pages
                ++ (text " pages · " ++ (or_count p.job.items ++ text " items")))))
    ∷ or_else p.job.start []
    ∷ View.when_some p.job.finish_reason (λ r. View.when (truthy r) (r ∷ []))

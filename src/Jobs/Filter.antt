-- ===== src/Jobs/Filter.antt =====
-- The filtered rows and the status pill.
use scrapydweb.Base.{
  ◌≡◌, refl, Bool, true, false, not, ◌&&◌, ◌||◌, List, [], ◌∷◌, Text, text, truthy, same, filter,
  All, filter-ext, filter-All, ◌∙◌, if◌then◌else◌, arith,
}
use scrapydweb.Js.Strings.{contains, trim}
use scrapydweb.Api.Types.{JobRow, JobStatus, pending, running, finished}
use scrapydweb.Shared.Reason.{is_failed_reason}

unfoldable pub status_text : JobStatus → Text
status_text pending = text "0"
status_text running = text "1"
status_text finished = text "2"

abbrev is_finished : JobStatus → Bool
is_finished finished = true
is_finished pending = false
is_finished running = false

unfoldable pub failed : JobRow → Bool
failed j = is_finished j.status && is_failed_reason j.finish_reason

-- `status` of the pill
pub data PillClass : Type 0 where
  pend run fin err : PillClass

pub record Pill : Type 0 where
  pub class : PillClass
  pub label : Text

-- `STATUS`
unfoldable pub status_pill : JobStatus → Pill
status_pill pending = record { class = pend; label = text "PENDING" }
status_pill running = record { class = run; label = text "RUNNING" }
status_pill finished = record { class = fin; label = text "FINISHED" }

unfoldable pub pill : JobRow → Pill
pill j = if failed j then record { class = err; label = text "FAILED" } else status_pill j.status

-- `toLowerCase` is the language's case mapping, a parameter.
module _ (to_lower : Text → Text) where
  unfoldable pub matches_status : Text → JobRow → Bool
  matches_status status j =
      if same status (text "failed")
      then failed j
      else same status (text "all") || same (status_text j.status) status

  unfoldable pub matches_needle : Text → JobRow → Bool
  matches_needle needle j =
      not (truthy needle)
      || contains needle (to_lower j.project)
      || contains needle (to_lower j.spider)
      || contains needle (to_lower j.job)

  unfoldable pub shown_jobs : Text → Text → List JobRow → List JobRow
  shown_jobs q status all =
      filter (λ j. matches_status status j && matches_needle (to_lower (trim q)) j) all

abbrev pub is_err : PillClass → Bool
is_err err = true
is_err _ = false

pill-err : (j : JobRow) → is_err (pill j).class ≡ failed j
unfolding pill status_pill
pill-err j = go (failed j) j.status
  where
    go :
        (b : Bool) (s : JobStatus)
        → is_err (if b then record { class = err; label = text "FAILED" } else status_pill s).class
          ≡ b
    go true s = refl
    go false pending = refl
    go false running = refl
    go false finished = refl

module _ (to_lower : Text → Text) (lower_nil : to_lower [] ≡ []) where
  no_needle : (j : JobRow) → matches_needle to_lower (to_lower (trim [])) j ≡ true
  unfolding matches_needle trim
  no_needle j = rw lower_nil

  failed_row :
      (j : JobRow)
      → (matches_status to_lower (text "failed") j
          && matches_needle to_lower (to_lower (trim [])) j)
        ≡ is_err (pill j).class
  failed_row j = rw (no_needle j, pill-err j) (unfold matches_status same in ground arith)

  all_row :
      (j : JobRow)
      → (matches_status to_lower (text "all") j && matches_needle to_lower (to_lower (trim [])) j)
        ≡ true
  all_row j = rw (no_needle j) (unfold matches_status same in refl)

  -- When lower case keeps the empty text: with no search, the "failed" filter shows exactly the rows
  -- whose pill is the error pill, and "all" shows every row.
  shown_jobs-failed :
      (all : List JobRow)
      → (shown_jobs to_lower [] (text "failed") all ≡ filter (λ j. is_err (pill j).class) all)
        × (shown_jobs to_lower [] (text "all") all ≡ all)
  unfolding shown_jobs
  shown_jobs-failed all = (
    filter-ext _ _ all failed_row,
    filter-ext _ (λ _. true) all all_row ∙ filter-All (λ _. true) all (every all),
  )
    where
      every : (xs : List JobRow) → All (λ _. true ≡ true) xs
      every [] = tt
      every (x ∷ xs) = (refl, every xs)

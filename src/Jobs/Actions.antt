-- ===== src/Jobs/Actions.antt =====
-- The cells and the actions of a row.
use scrapydweb.Base.{
  ◌>>=◌, take, ℕ, zero, suc, Bool, false, List, [], ◌∷◌, ◌++◌, Option, none, some, Text, text,
  truthy, same, not, ◌&&◌, length, if◌then◌else◌, ltb,
}
use scrapydweb.Js.Decimal.{show}
use scrapydweb.Js.Strings.{split}
use scrapydweb.Js.Uri.{encode_uri}
use scrapydweb.Api.Types.{JobRow, JobStatus, pending, running, finished}
use scrapydweb.Shared.Reason.{is_failed_reason}

pub data RunColor : Type 0 where
  ok bad live unknown : RunColor

-- a reason in a condition
abbrev given : Option Text → Bool
given none = false
given (some s) = truthy s && not (same s (text "N/A"))

abbrev ended_color : JobRow → RunColor
ended_color j =
    if is_failed_reason j.finish_reason then bad else if given j.finish_reason then ok else unknown

abbrev color_by : JobStatus → JobRow → RunColor
color_by running j = live
color_by pending j = ended_color j
color_by finished j = ended_color j

-- `runColor`
unfoldable pub run_color : JobRow → RunColor
run_color j = color_by j.status j

-- the version's cell: a long version is cut after 16 units, an absent or empty one is a dash
unfoldable pub version_cell : Option Text → Text
version_cell none = text "–"
version_cell (some []) = text "–"
version_cell (some (c ∷ s)) = if ltb 16 (length (c ∷ s)) then take 16 (c ∷ s) ++ text "…" else c ∷ s

-- the label of the arguments' button, none when there is no argument
unfoldable pub args_cell : ℕ → Option Text
args_cell zero = none
args_cell (suc n) = some (show (suc n) ++ (if ltb 1 (suc n) then text " args" else text " arg"))

pub data RowAction : Type 0 where
  go_stats go_log : Text → RowAction
  go_code : Option Text → RowAction
  download : Option Text → RowAction
  stop start : Text → RowAction

abbrev finished_query : JobStatus → Text
finished_query finished = text "?finished=1"
finished_query pending = []
finished_query running = []

-- the page of a log; its parts are not encoded
unfoldable pub log_page : ℕ → Text → JobRow → Text
log_page node view j =
    text "/log/"
    ++ (show node
        ++ (text "/"
            ++ (view
                ++ (text "/"
                    ++ (j.project
                        ++ (text "/"
                            ++ (j.spider ++ (text "/" ++ (j.job ++ finished_query j.status)))))))))

-- `none` when a name cannot be encoded, which throws
unfoldable pub code_page : JobRow → Text → Option Text
code_page j version = do
  p ← encode_uri j.project
  v ← encode_uri version
  some (text "/code/" ++ (p ++ (text "/" ++ v)))

-- `j.href_items.split("/").pop()`
abbrev last_or_empty : List Text → Text
last_or_empty [] = []
last_or_empty (s ∷ []) = s
last_or_empty (s ∷ t ∷ ts) = last_or_empty (t ∷ ts)

unfoldable pub items_url : ℕ → JobRow → Text → Option Text
items_url node j href = do
  p ← encode_uri j.project
  s ← encode_uri j.spider
  f ← encode_uri (last_or_empty (split b'/' href))
  some (
      text "/api/"
      ++ (show node ++ (text "/download/items/" ++ (p ++ (text "/" ++ (s ++ (text "/" ++ f)))))))

abbrev code_action : JobRow → Option Text → List RowAction
code_action j none = []
code_action j (some v) = if truthy v then go_code (code_page j v) ∷ [] else []

abbrev items_action : ℕ → JobRow → Option Text → List RowAction
items_action node j none = []
items_action node j (some href) = if truthy href then download (items_url node j href) ∷ [] else []

abbrev control : JobStatus → JobRow → RowAction
control running j = stop j.url_stop
control pending j = start j.url_start
control finished j = start j.url_start

-- the buttons of a row, in order
unfoldable pub row_actions : ℕ → JobRow → List RowAction
row_actions node j =
    go_stats (log_page node (text "stats") j)
    ∷ go_log (log_page node (text "utf8") j)
    ∷ (code_action j j.version ++ (items_action node j j.href_items ++ control j.status j ∷ []))

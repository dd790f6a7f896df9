-- ===== src/Schedule/Summary/View.antt =====
-- What `SummaryPanel` shows.
use scrapydweb.Base.{
  ℕ, Bool, not, Option, none, some, List, [], ◌∷◌, ◌++◌, map, Text, text, or_text, length, ltb,
  ◌==◌, filter, if◌then◌else◌,
}
use scrapydweb.Js.Decimal.{show}
use scrapydweb.Js.Json
use scrapydweb.Js.View.{Shown, when, concat_map}
use scrapydweb.Js.View
use scrapydweb.Api.Types.{NodeInfo}
use scrapydweb.Payload.{Row, ScheduleForm, Mode, now, cron}
use scrapydweb.Payload.Form.{is_filled}
use scrapydweb.Payload.Curl.{backend_group_curl}
use scrapydweb.Schedule.Cron.{Answer, ok, error, other}
use scrapydweb.Schedule.Summary.{listed_nodes, version_cell, jobid_cell, curl_body, curl_node}

-- the button of the panel submits the form
pub data Event : Type 0 where
  submit : Event

abbrev cell : Text → Text → List (Shown Event) → List (Shown Event)
cell label value rest = View.says label ∷ View.says value ∷ rest

abbrev row_text : Row → Shown Event
row_text r = View.says (r.key ++ (text "=" ++ r.value))

abbrev counted : Text → ℕ → Text
counted what n = what ++ (text " (" ++ (show n ++ text ")"))

abbrev next_view : Option Answer → List (Shown Event)
next_view (some (ok [])) = View.says (text "never fires") ∷ []
next_view (some (ok (t ∷ ts))) = View.says (text "next: " ++ t) ∷ []
next_view (some (error m)) = []
next_view (some other) = []
next_view none = []

abbrev blank : Text
blank = text " "

unfoldable pub time_view : Mode → Option Answer → ScheduleForm → List (Shown Event)
time_view now answer v = View.says (text "runs immediately") ∷ []
time_view cron answer v =
    View.says (
      text "cron "
      ++ (v.minute
          ++ (blank
              ++ (v.hour
                  ++ (blank ++ (v.day ++ (blank ++ (v.month ++ (blank ++ v.day_of_week)))))))))
    ∷ next_view answer

abbrev submit_label : Mode → Text
submit_label now = text "Run spider"
submit_label cron = text "Save task"

-- the panel, for the origin, the nodes, the preview's answer and the number of fields with an error
unfoldable pub summary_view :
    Text
    → List NodeInfo
    → Option Answer
    → (pending : Bool) → (issues : ℕ) → ScheduleForm
    → List (Shown Event)
unfolding listed_nodes version_cell jobid_cell time_view backend_group_curl curl_body filter
    is_filled
summary_view origin nodes answer pending issues v =
    let selected = listed_nodes nodes v in
    let settings = filter is_filled v.settings in
    let args = filter is_filled v.args in
    View.says (text "Summary")
    ∷ cell (text "project") (or_text v.project (text "—")) (
        cell (text "version") (version_cell v.version) (
          cell (text "spider") (or_text v.spider (text "—")) (
            cell (text "jobid") (jobid_cell v.jobid) (
              View.says (counted (text "nodes") (length selected))
              ∷ (when (length selected == 0) (View.says (text "none selected") ∷ [])
                  ++ (map (λ (n : NodeInfo). View.badge (show n.node ++ (text " · " ++ n.server)))
                        selected
                      ++ (View.says (counted (text "settings") (length settings))
                          ∷ (when (length settings == 0) (View.says (text "project defaults") ∷ [])
                              ++ (map row_text settings
                                  ++ (when (ltb 0 (length args)) (
                                        View.says (counted (text "arguments") (length args))
                                        ∷ map row_text args)
                                      ++ (time_view v.mode answer v
                                          ++ (View.says (text "Equivalent curl")
                                              ∷ View.says (
                                                  backend_group_curl (curl_node v.nodes)
                                                    (Json.obj (curl_body v)) origin)
                                              ∷ View.button (submit_label v.mode) (not pending)
                                                  submit
                                              ∷ when (ltb 0 issues) (
                                                  View.says (
                                                    show issues
                                                    ++ (text " field"
                                                        ++ ((if ltb 1 issues then text "s" else [])
                                                            ++ text " need attention")))
                                                  ∷ [])))))))))))))

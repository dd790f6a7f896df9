-- ===== src/Log/Page.antt =====
-- `LogPage`, `LogText`, `LogStats` and `StatsPanel`: what the pages of a log show.
use scrapydweb.Base.{
  ◌>>=◌, ℕ, Bool, true, false, not, Option, none, some, or_else, List, [], ◌∷◌, ◌++◌, Text, text,
  truthy, length, same, Obj, ◌==◌, if◌then◌else◌,
}
use scrapydweb.Js.Decimal.{show}
use scrapydweb.Js.Strings.{split}
use scrapydweb.Js.Uri.{encode_uri}
use scrapydweb.Js.View.{Shown, when, when_some, concat_map}
use scrapydweb.Js.View
use scrapydweb.Log.Panel.{Mode, stats, utf8, mode_path, Figure, fmt, category_name, Sample, chart}

-- a job's log: the parameters of the route, and whether the job is known to be finished
pub record LogParams : Type 0 where
  pub node : ℕ
  pub project : Text
  pub spider : Text
  pub job : Text
  pub known : Bool

pub data Event : Type 0 where
  open_mode : Mode → Event
  set_follow : Bool → Event

abbrev is_stats : Mode → Bool
is_stats stats = true
is_stats utf8 = false

-- the heading and the tabs, which do nothing for the mode that is shown
unfoldable pub heading : LogParams → Mode → List (Shown Event)
heading p m =
    View.says p.spider
    ∷ View.says (p.project ++ (text " · " ++ (p.job ++ (text " · node " ++ show p.node))))
    ∷ View.button (text "Stats") (not (is_stats m)) (open_mode stats)
    ∷ View.button (text "Log") (is_stats m) (open_mode utf8)
    ∷ []

unfoldable pub code_link : Text → Text → Option Text
unfolding encode_uri
code_link project version = do
  p ← encode_uri project
  v ← encode_uri version
  some (text "/code/" ++ (p ++ (text "/" ++ v)))

abbrev last_piece : List Text → Text
last_piece [] = []
last_piece (s ∷ []) = s
last_piece (s ∷ t ∷ ts) = last_piece (t ∷ ts)

-- the download of the log's file, which is the last part of its address
unfoldable pub download_link : LogParams → Text → Option Text
unfolding encode_uri split
download_link p url_source = do
  project ← encode_uri p.project
  spider ← encode_uri p.spider
  file ← encode_uri (last_piece (split b'/' url_source))
  some (
      text "/api/"
      ++ (show p.node
          ++ (text "/download/logs/" ++ (project ++ (text "/" ++ (spider ++ (text "/" ++ file)))))))

abbrev truthy_link : Option Text → (Text → List (Shown Event)) → List (Shown Event)
truthy_link s f = when_some s (λ t. when (truthy t) (f t))

pub record LogAnswer : Type 0 where
  pub status : Text
  pub status_code : Option ℕ
  pub finished : Bool
  pub text_of : Text
  pub version : Option Text
  pub url_source : Option Text

abbrev code_text : Option ℕ → Text
code_text none = text "?"
code_text (some n) = show n

-- `toLocaleString` of a number is a parameter.
module _ (to_locale : ℕ → Text) where
  unfoldable pub log_view : LogParams → (follow : Bool) → LogAnswer → List (Shown Event)
  unfolding split code_link download_link
  log_view p follow a =
      View.badge (if a.finished then text "FINISHED" else text "LIVE")
      ∷ View.says (to_locale (length (split 10 a.text_of)) ++ text " lines")
      ∷ View.toggle (text "Follow tail") follow set_follow
      ∷ (truthy_link a.version (λ v. View.link (text "Code") (code_link p.project v) ∷ [])
          ++ truthy_link a.url_source (λ u. View.link (text "Download") (download_link p u) ∷ []))

  abbrev failed_view : Option ℕ → List (Shown Event)
  failed_view code = View.says (text "Failed to load log (" ++ (code_text code ++ text ").")) ∷ []

  -- `LogText` once the query is not loading; the lines are `ColoredLog`'s
  unfoldable pub log_text : LogParams → Bool → Option LogAnswer → List (Shown Event)
  unfolding log_view same
  log_text p follow none = failed_view none
  log_text p follow (some a) =
      if same a.status (text "ok") then log_view p follow a else failed_view a.status_code

  pub record Stats : Type 0 where
    pub pages : Option Figure
    pub items : Option Figure
    pub runtime : Option Text
    pub finish_reason : Option Text
    pub log_categories : Obj ℕ
    pub datas : Option (List Sample)
    pub first_log_time : Option Text
    pub latest_log_time : Option Text
    pub last_update_time : Option Text
    pub shutdown_reason : Option Text

  pub record StatsAnswer : Type 0 where
    pub status : Text
    pub stats_of : Option Stats
    pub args : Obj Text
    pub logparser_valid : Bool
    pub version : Option Text
    pub url_source : Option Text

  abbrev row : Text → Option Text → List (Shown Event)
  row k v = View.says k ∷ View.says (or_else v (text "N/A")) ∷ []

  abbrev pairs : Obj Text → List (Shown Event)
  pairs o = concat_map (λ (p : Text × Text). View.says p.0 ∷ View.says p.1 ∷ []) o

  unfoldable pub stats_panel :
      (Option Text → Text) → LogParams → StatsAnswer → Stats → List (Shown Event)
  unfolding fmt category_name mode_path code_link chart
  stats_panel fmt_date_time p a s =
      row (text "Pages") (some (fmt to_locale s.pages))
      ++ (row (text "Items") (some (fmt to_locale s.items))
          ++ (row (text "Runtime") s.runtime
              ++ (row (text "Finish reason") s.finish_reason
                  ++ (when (not (length a.args == 0)) (View.says (text "Arguments") ∷ pairs a.args)
                      ++ (when_some (chart s.datas) (λ c. View.says (text "Crawl progress") ∷ [])
                          ++ (View.says (text "Log categories")
                              ∷ (when (length s.log_categories == 0)
                                    (View.says (text "No categorised entries.") ∷ [])
                                  ++ (concat_map
                                        (λ (c : Text × ℕ).
                                          View.says (category_name c.0)
                                          ∷ View.badge (show c.1)
                                          ∷ [])
                                        s.log_categories
                                      ++ (View.says (text "Timeline")
                                          ∷ (row (text "first log")
                                                (some (fmt_date_time s.first_log_time))
                                              ++ (row (text "latest log")
                                                    (some (fmt_date_time s.latest_log_time))
                                                  ++ (row (text "updated")
                                                        (some (fmt_date_time s.last_update_time))
                                                      ++ (row (text "shutdown") s.shutdown_reason
                                                          ++ (row (text "logparser") (
                                                            some (
                                                            if a.logparser_valid
                                                            then text "yes"
                                                            else text "fallback parse"))
                                                            ++ (View.link (text "View log") (
                                                            some (
                                                            mode_path p.node utf8 p.project p.spider
                                                            p.job p.known))
                                                            ∷ (truthy_link a.version (λ v.
                                                            View.link (text "Code")
                                                            (code_link p.project v)
                                                            ∷ [])
                                                            ++ truthy_link a.url_source (λ u.
                                                            View.link (text "Source") (some u)
                                                            ∷ [])))))))))))))))))

  abbrev no_stats : List (Shown Event)
  no_stats = View.says (text "No stats available for this job.") ∷ []

  abbrev panel_of :
      (Option Text → Text) → LogParams → StatsAnswer → Option Stats → List (Shown Event)
  unfolding stats_panel
  panel_of fmt_date_time p a none = no_stats
  panel_of fmt_date_time p a (some s) = stats_panel fmt_date_time p a s

  -- `LogStats` once the query is not loading
  unfoldable pub log_stats :
      (Option Text → Text) → LogParams → Option StatsAnswer → List (Shown Event)
  unfolding panel_of stats_panel same
  log_stats fmt_date_time p none = no_stats
  log_stats fmt_date_time p (some a) =
      if same a.status (text "ok") then panel_of fmt_date_time p a a.stats_of else no_stats

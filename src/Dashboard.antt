-- ===== src/Dashboard.antt =====
-- frontend/src/pages/dashboard.tsx: the figures, the nodes and the activity.
use scrapydweb.Base.{
  ◌>>=◌, ℕ, Option, none, some, List, [], ◌∷◌, ◌++◌, Text, text, truthy, or_text, length, ◌==◌,
  same, if◌then◌else◌,
}
use mathlib.Core.List.{reverse}
use scrapydweb.Js.Decimal.{show}
use scrapydweb.Js.Uri.{encode_uri}
use scrapydweb.Js.View.{Shown, when, when_some, concat_map}
use scrapydweb.Js.View

pub record NodeCard : Type 0 where
  pub index : ℕ
  pub server : Text
  pub group : Text
  pub running : ℕ
  pub pending : ℕ
  pub finished : ℕ
  pub pages : ℕ
  pub items : ℕ
  pub last : Text

pub record Activity : Type 0 where
  pub node : ℕ
  pub project : Text
  pub spider : Text
  pub job : Text
  pub status_class : Text
  pub status_label : Text
  pub pages : Option ℕ
  pub items : Option ℕ
  pub runtime : Text
  pub when : Text

pub record Kpi : Type 0 where
  pub running : ℕ
  pub pending : ℕ
  pub finished : ℕ
  pub pages : ℕ
  pub items : ℕ

pub record Dashboard : Type 0 where
  pub kpi : Kpi
  pub nodes_online : ℕ
  pub nodes_total : ℕ
  pub nodes : List NodeCard
  pub throughput_total : ℕ
  pub activity : List Activity

-- a link selects its node
pub data Event : Type 0 where
  set_node : ℕ → Event

-- the page of a job's statistics, its parts encoded
unfoldable pub activity_link : Activity → Option Text
unfolding encode_uri same
activity_link e = do
  p ← encode_uri e.project
  s ← encode_uri e.spider
  j ← encode_uri e.job
  some (
      text "/log/"
      ++ (show e.node
          ++ (text "/stats/"
              ++ (p
                  ++ (text "/"
                      ++ (s
                          ++ (text "/"
                              ++ (j
                                  ++ (if same e.status_class (text "fin")
                                      then text "?finished=1"
                                      else [])))))))))

-- `toLocaleString` of a number is a parameter.
module _ (to_locale : ℕ → Text) where
  abbrev kpi : Text → ℕ → List (Shown Event)
  kpi label value = View.says label ∷ View.says (to_locale value) ∷ []

  unfoldable pub kpis : Kpi → List (Shown Event)
  kpis k =
      kpi (text "Running") k.running
      ++ (kpi (text "Pending") k.pending
          ++ (kpi (text "Finished") k.finished
              ++ (kpi (text "Pages") k.pages ++ kpi (text "Items") k.items)))

  abbrev stat : Text → ℕ → Text
  stat label n = show n ++ (text " " ++ label)

  unfoldable pub node_card : NodeCard → List (Shown Event)
  node_card n =
      View.jump (show n.index ++ (text ". " ++ n.server)) (some (text "/jobs")) (set_node n.index)
      ∷ (View.when (truthy n.group) (View.badge n.group ∷ [])
          ++ View.says (stat (text "run") n.running)
            ∷ View.says (stat (text "pend") n.pending)
            ∷ View.says (stat (text "fin") n.finished)
            ∷ View.says
                (to_locale n.pages ++ (text " pages · " ++ (to_locale n.items ++ text " items")))
            ∷ View.says (or_text n.last (text "no activity"))
            ∷ [])

  abbrev counted : Text → Option ℕ → List (Shown Event)
  counted label n = when_some n (λ n. View.says (to_locale n ++ (text " " ++ label)) ∷ [])

  unfoldable pub activity_row : Activity → List (Shown Event)
  unfolding activity_link
  activity_row e =
      View.jump e.spider (activity_link e) (set_node e.node)
      ∷ View.badge e.status_label
      ∷ View.says (e.project ++ (text " · " ++ e.job))
      ∷ (counted (text "pages") e.pages
          ++ (counted (text "items") e.items
              ++ (View.when (truthy e.runtime) (View.says e.runtime ∷ [])
                  ++ View.says e.when ∷ [])))

  unfoldable pub dashboard_view : Dashboard → List (Shown Event)
  unfolding kpis node_card activity_row
  dashboard_view d =
      kpis d.kpi
      ++ (View.says (text "Scrapyd Nodes")
          ∷ View.badge (show d.nodes_online ++ (text "/" ++ (show d.nodes_total ++ text " online")))
          ∷ (concat_map node_card d.nodes
              ++ (View.says (text "Throughput")
                  ∷ View.says (show d.throughput_total ++ text " finished / 14d")
                  ∷ View.says (text "Recent Activity")
                  ∷ (View.when (length d.activity == 0) (View.says (text "No recent jobs.") ∷ [])
                      ++ concat_map activity_row (reverse d.activity)))))

  -- the page: while it loads, without servers, without data, and otherwise
  pub data Loaded : Type 0 where
    loading : Loaded
    answered : (node_count : ℕ) → Option Dashboard → Loaded
    unavailable : Loaded

  abbrev unavailable_view : List (Shown Event)
  unavailable_view = View.says (text "Dashboard unavailable — no data from the cluster yet.") ∷ []

  abbrev of_dashboard : Option Dashboard → List (Shown Event)
  of_dashboard none = unavailable_view
  of_dashboard (some d) = dashboard_view d

  unfoldable pub page_view : Loaded → List (Shown Event)
  unfolding dashboard_view
  page_view loading = []
  page_view unavailable = unavailable_view
  page_view (answered n d) =
      if n == 0
      then View.says (text "No scrapyd servers configured")
        ∷ View.link (text "Configure servers") (some (text "/settings"))
        ∷ []
      else of_dashboard d

-- ===== src/Schedule/Cards/Target.antt =====
-- `TargetCard`: what is run and where.
use scrapydweb.Base.{◌>>=◌, true, ℕ, Option, some, List, [], ◌∷◌, ◌++◌, Text, text, truthy}
use scrapydweb.Js.View.{Shown}
use scrapydweb.Js.View
use scrapydweb.Js.Uri.{encode_uri}
use scrapydweb.Js.Decimal.{show}
use scrapydweb.Payload.{ScheduleForm}
use scrapydweb.Schedule.Cards.{set_project, version_options, spider_options}

pub data Event : Type 0 where
  choose_project choose_version choose_spider type_jobid : Text → Event
  choose_nodes : List ℕ → Event

unfoldable pub change : Event → ScheduleForm → ScheduleForm
unfolding set_project
change (choose_project p) v = set_project p v
change (choose_version t) v = record v { version = t }
change (choose_spider t) v = record v { spider = t }
change (type_jobid t) v = record v { jobid = t }
change (choose_nodes ns) v = record v { nodes = ns }

-- the addresses that are asked for projects, versions and spiders; the last two wait for a project
unfoldable pub projects_url : ℕ → Text
projects_url node = text "/" ++ (show node ++ text "/api/listprojects/")

unfoldable pub versions_url : ℕ → Text → Option Text
unfolding encode_uri
versions_url node project = do
  p ← encode_uri project
  some (text "/" ++ (show node ++ (text "/api/listversions/" ++ (p ++ text "/"))))

unfoldable pub spiders_url : ℕ → Text → Text → Option Text
unfolding encode_uri
spiders_url node project version = do
  p ← encode_uri project
  v ← encode_uri version
  some (
      text "/" ++ (show node ++ (text "/api/listspiders/" ++ (p ++ (text "/" ++ (v ++ text "/"))))))

-- the card, without the choice of nodes, for the projects, versions and spiders that are listed
unfoldable pub target_view :
    (projects versions spiders : List Text) → ScheduleForm → List (Shown Event)
unfolding version_options spider_options
target_view projects versions spiders v =
    View.says (text "Target")
    ∷ View.says (text "Project")
    ∷ View.choice v.project projects true choose_project
    ∷ View.says (text "Version")
    ∷ View.choice v.version (version_options v.version versions) (truthy v.project) choose_version
    ∷ View.says (text "Spider")
    ∷ View.choice v.spider (spider_options v.spider spiders) (truthy v.project) choose_spider
    ∷ View.says (text "Run on nodes")
    ∷ View.says (text "Job ID (optional)")
    ∷ View.input v.jobid true type_jobid
    ∷ []

-- ===== src/Frame/Routes.antt =====
-- The routes of frontend/src/App.tsx. Which of them an address matches is left to the router.
use scrapydweb.Base.{Bool, true, false, List, [], ◌∷◌, Text, text}
use scrapydweb.Js.View.{Shown}
use scrapydweb.Js.View
use scrapydweb.Frame.Nav.{Me, Gate, gate}

pub data Page : Type 0 where
  login dashboard jobs log tasks schedule group tokens deploy projects code alerts settings : Page
  not_found : Page

pub record Route : Type 0 where
  -- the pattern of the address, empty for the index
  pub path : Text
  pub page : Page
  -- whether it stands in the frame, behind the gate
  pub is_gated : Bool

abbrev gated : Text → Page → Route
gated path page = record { path = path; page = page; is_gated = true }

unfoldable pub routes : List Route
routes =
    record { path = text "login"; page = login; is_gated = false }
    ∷ gated [] dashboard
    ∷ gated (text "jobs") jobs
    ∷ gated (text "log/:node/:opt/:project/:spider/:job") log
    ∷ gated (text "tasks") tasks
    ∷ gated (text "schedule") schedule
    ∷ gated (text "group") group
    ∷ gated (text "tokens") tokens
    ∷ gated (text "deploy") deploy
    ∷ gated (text "projects") projects
    ∷ gated (text "code/:project/:version") code
    ∷ gated (text "alerts") alerts
    ∷ gated (text "settings") settings
    ∷ gated (text "*") not_found
    ∷ []

pub data Rendered : Type 0 where
  blank to_login : Rendered
  in_frame bare : Page → Rendered

abbrev behind : Gate → Page → Rendered
behind Gate.nothing p = blank
behind Gate.to_login p = to_login
behind Gate.children p = in_frame p

-- what is rendered for the route that matched
unfoldable pub render : Me → Route → Rendered
unfolding gate
render me r = elim r.is_gated [ true ↦ behind (gate me) r.page | false ↦ bare r.page ]

-- `NotFound`
unfoldable pub not_found_view {ℓ} : {E : Type ℓ} → List (Shown E)
not_found_view = View.says (text "404") ∷ View.says (text "Page not found.") ∷ []

-- ===== src/Frame/Nav.antt =====
-- The sidebar's entries, the topbar's title, its chips and its selection of a node, and the gate.
use scrapydweb.Base.{
  ℕ, ◌+◌, ◌≤◌, ◌≡◌, refl, Bool, true, false, Option, none, some, List, [], ◌∷◌, ◌++◌, map, Text,
  text, same, same-eq, ap, ◌∙◌, ◌&&◌, &&-true, all, if◌then◌else◌, arith, ◌==◌, Bool-cases, inl,
  inr, All,
}
use scrapydweb.Js.Strings.{starts_with}
use scrapydweb.Js.Decimal.{show}
use scrapydweb.Js.View.{Shown, concat_map}
use scrapydweb.Js.View
use scrapydweb.Api.Types.{NodeInfo}

pub record Entry : Type 0 where
  pub title : Text
  pub url : Text
  pub exact : Bool

abbrev entry : Text → Text → Entry
entry title url = record { title = title; url = url; exact = false }

-- `NAV`
unfoldable pub nav : List Entry
nav =
    record { title = text "Dashboard"; url = text "/"; exact = true }
    ∷ entry (text "Jobs") (text "/jobs")
    ∷ entry (text "Timer Tasks") (text "/tasks")
    ∷ entry (text "Run Spider") (text "/schedule")
    ∷ entry (text "Groups") (text "/group")
    ∷ entry (text "Deploy") (text "/deploy")
    ∷ entry (text "Projects") (text "/projects")
    ∷ entry (text "Alerts") (text "/alerts")
    ∷ entry (text "API Tokens") (text "/tokens")
    ∷ []

unfoldable pub is_active : Text → Entry → Bool
unfolding same starts_with
is_active path e = if e.exact then same path e.url else starts_with e.url path

-- the links of the sidebar, each with whether it is marked
unfoldable pub sidebar : Text → List (Text × Text × Bool)
unfolding is_active nav starts_with
sidebar path =
    map (λ (e : Entry). (e.title, e.url, is_active path e)) nav
    ++ (text "Settings", text "/settings", starts_with (text "/settings") path) ∷ []

abbrev titles : List (Text × Text)
titles =
    (text "/jobs", text "Jobs")
    ∷ (text "/tasks", text "Timer Tasks")
    ∷ (text "/schedule", text "Run Spider")
    ∷ (text "/deploy", text "Deploy Project")
    ∷ (text "/projects", text "Projects")
    ∷ (text "/settings", text "Settings")
    ∷ (text "/code/", text "Code")
    ∷ (text "/log/", text "Log Viewer")
    ∷ []

unfoldable pub first_title : List (Text × Text) → Text → Text
unfolding starts_with
first_title [] path = text "Dashboard"
first_title ((prefix, title) ∷ rest) path =
    let later = first_title rest path in if starts_with prefix path then title else later

-- `pageTitle`
unfoldable pub page_title : Text → Text
unfolding first_title
page_title path = first_title titles path

abbrev marked : List (Text × Text × Bool) → ℕ
marked [] = 0
marked ((t, u, b) ∷ rest) = (if b then 1 else 0) + marked rest

-- Neither text begins with the other.
unfoldable pub differ : Text → Text → Bool
differ [] q = false
differ (a ∷ p) [] = false
differ (a ∷ p) (b ∷ q) = let rest = differ p q in if a == b then rest else true

differ-apart :
    (p q path : Text) → differ p q ≡ true → starts_with p path ≡ true → starts_with q path ≡ false
unfolding differ starts_with
differ-apart [] q path d h = cc
differ-apart (a ∷ p) [] path d h = cc
differ-apart (a ∷ p) (b ∷ q) [] d h = cc
differ-apart (a ∷ p) (b ∷ q) (c ∷ path) d h = ground (arith, d, h, differ-apart p q path)

abbrev hits : List Text → Text → ℕ
hits [] path = 0
hits (p ∷ ps) path = (if starts_with p path then 1 else 0) + hits ps path

abbrev apart : List Text → Bool
apart [] = true
apart (p ∷ ps) = all (differ p) ps && apart ps

no-hits :
    (p path : Text) (ps : List Text)
    → all (differ p) ps ≡ true
    → starts_with p path ≡ true
    → hits ps path ≡ 0
unfolding all
no-hits p path [] d h = refl
no-hits p path (q ∷ ps) d h =
    let (e, f) = &&-true (differ p q) (all (differ p) ps) d in
    rw (differ-apart p q path e h) (omega (arith, no-hits p path ps f h))

hits-one : (path : Text) (ps : List Text) → apart ps ≡ true → hits ps path ≤ 1
hits-one path [] d = omega arith
hits-one path (p ∷ ps) d =
    let (e, f) = &&-true (all (differ p) ps) (apart ps) d in
    ground (arith, no-hits p path ps e, hits-one path ps f)

abbrev prefixes : List Text
prefixes =
    text "/jobs"
    ∷ text "/tasks"
    ∷ text "/schedule"
    ∷ text "/group"
    ∷ text "/deploy"
    ∷ text "/projects"
    ∷ text "/alerts"
    ∷ text "/tokens"
    ∷ text "/settings"
    ∷ []

prefixes-apart : apart prefixes ≡ true
unfolding all differ
prefixes-apart = refl

marked-hits :
    (path : Text)
    → marked (sidebar path) ≡ (if same path (text "/") then 1 else 0) + hits prefixes path
unfolding sidebar is_active nav
marked-hits path = refl

root-hits : hits prefixes (text "/") ≡ 0
unfolding starts_with
root-hits = refl

-- At any path the sidebar marks at most one of its links.
marked-sidebar : (path : Text) → marked (sidebar path) ≤ 1
marked-sidebar path = elim (Bool-cases (same path (text "/"))) [
  | inl e ↦
      let z = ap (hits prefixes) (same-eq path (text "/") e) ∙ root-hits in
      ground (arith, marked-hits path, z)
  | inr e ↦ ground (arith, marked-hits path, e, hits-one path prefixes prefixes-apart)
]

-- The pages of groups, alerts and tokens have no title of their own: at any of their paths the topbar
-- says "Dashboard", while the sidebar marks the page's entry and not the dashboard's.
page_title-untitled :
    (rest : Text)
    → All
        (λ (e : Entry).
          (page_title (e.url ++ rest) ≡ text "Dashboard") × (is_active (e.url ++ rest) e ≡ true))
        (entry (text "Groups") (text "/group")
          ∷ entry (text "Alerts") (text "/alerts")
          ∷ entry (text "API Tokens") (text "/tokens")
          ∷ [])
unfolding page_title is_active
page_title-untitled rest = ((refl, refl), ((refl, refl), ((refl, refl), tt)))

-- A node's selection: the link to the settings without nodes, and the nodes' numbers otherwise.
unfoldable pub node_view : ℕ → List NodeInfo → List (Shown Text)
node_view node [] = View.link (text "no servers — configure") (some (text "/settings")) ∷ []
node_view node (n ∷ ns) =
    View.choice (show node) (map (λ (m : NodeInfo). show m.node) (n ∷ ns)) true (λ v. v)
    ∷ map (λ (m : NodeInfo). View.says (show m.node ++ (text ". " ++ m.server))) (n ∷ ns)

-- `Chip`
abbrev chip : Text → Option ℕ → List (Shown Text)
chip label none = View.says label ∷ View.says (text "–") ∷ []
chip label (some n) = View.says label ∷ View.says (show n) ∷ []

-- `GET daemonstatus`: the status and the three counts
pub record DaemonStatus : Type 0 where
  pub status : Text
  pub running : Option ℕ
  pub pending : Option ℕ
  pub finished : Option ℕ

abbrev count_of : (DaemonStatus → Option ℕ) → Option DaemonStatus → Option ℕ
count_of f none = none
count_of f (some s) = f s

unfoldable pub is_online : Option DaemonStatus → Bool
unfolding same
is_online none = false
is_online (some s) = same s.status (text "ok")

unfoldable pub topbar : Text → ℕ → List NodeInfo → Option DaemonStatus → List (Shown Text)
unfolding page_title node_view
topbar path node nodes status =
    View.says (text "scrapydweb /")
    ∷ View.says (page_title path)
    ∷ (chip (text "running") (count_of (λ s. s.running) status)
        ++ (chip (text "pending") (count_of (λ s. s.pending) status)
            ++ (chip (text "finished") (count_of (λ s. s.finished) status)
                ++ node_view node nodes)))

-- `AuthGate`: nothing while the user is not known, the login page, or the page
pub data Gate : Type 0 where
  nothing to_login children : Gate

-- the query of the user: loading, no answer, or an answer
pub data Me : Type 0 where
  loading unknown : Me
  known : (authenticated : Bool) → Me

unfoldable pub gate : Me → Gate
gate loading = nothing
gate unknown = children
gate (known true) = children
gate (known false) = to_login

-- ===== src/Projects/Page/Guarded.antt =====
-- What the buttons of `ProjectCard` delete, and that each asks before.
use scrapydweb.Base.{
  ℕ, ◌≡◌, true, false, Option, none, some, List, [], ◌∷◌, map, Text, text, same, if◌then◌else◌,
  drop,
}
use scrapydweb.Js.Strings.{starts_with}
use scrapydweb.Js.View.{Shown}
use scrapydweb.Js.View
use scrapydweb.Projects.Versions.{delete_url, old_versions}
use scrapydweb.Projects.Page.{Event, clicked, version_url}

-- what a label says that its button deletes
abbrev pub named : ℕ → Text → List Text → Text → List (Option Text)
named node project versions label =
    if same label (text "Delete")
    then delete_url node project none ∷ []
    else if same label (text "Delete old versions (keep latest)")
    then map (version_url node project) (old_versions versions)
    else if starts_with (text "Delete version ") label
    then delete_url node project (some (drop 15 label)) ∷ []
    else []

-- nothing is deleted when the question is declined, and what the label names when it is confirmed
abbrev pub Deletes : ℕ → Text → List Text → Text → Event → Type 0
Deletes node project versions label e =
    (clicked node project versions false e ≡ [])
    × (clicked node project versions true e ≡ named node project versions label)

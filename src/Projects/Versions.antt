-- ===== src/Projects/Versions.antt =====
-- The versions of a project: deleting one, deleting the project, and deleting the old versions.
pub mod Latest
use scrapydweb.Base.{
  ◌>>=◌, ℕ, zero, suc, ◌+◌, ◌≡◌, refl, sym, ap, ◌∙◌, Bool, true, false, not, ◌&&◌, ◌||◌, Option,
  none, some, List, [], ◌∷◌, ◌++◌, Text, text, truthy, same, same_iff, same_refl, includes_text,
  includes_text-append, includes_text-drop, filter, length, ltb, ◌==◌, if◌then◌else◌, arith, All,
  Bool-cases, inl, inr,
}
use scrapydweb.Js.Decimal.{show}
use scrapydweb.Js.Uri.{encode_uri}
use scrapydweb.Api.Types.{DeploySource, manual, folder, git, webhook}

-- the URL that `del` and `prune` post to
unfoldable pub delete_url : ℕ → Text → Option Text → Option Text
delete_url node project none = do
  p ← encode_uri project
  some (text "/" ++ (show node ++ (text "/api/delproject/" ++ (p ++ text "/"))))
delete_url node project (some []) = do
  p ← encode_uri project
  some (text "/" ++ (show node ++ (text "/api/delproject/" ++ (p ++ text "/"))))
delete_url node project (some (c ∷ version)) = do
  p ← encode_uri project
  v ← encode_uri (c ∷ version)
  some
      (text "/" ++ (show node ++ (text "/api/delversion/" ++ (p ++ (text "/" ++ (v ++ text "/"))))))

-- `canDeploy`, for the source of a registered project
unfoldable pub can_deploy : Option DeploySource → Bool
can_deploy none = false
can_deploy (some git) = true
can_deploy (some webhook) = true
can_deploy (some manual) = false
can_deploy (some folder) = false

-- `all.slice(0, -1)`: Scrapyd lists the versions in ascending order
abbrev pub old_versions : List Text → List Text
old_versions [] = []
old_versions (v ∷ []) = []
old_versions (v ∷ w ∷ vs) = v ∷ old_versions (w ∷ vs)

-- How one post ends: Scrapyd deletes the version, or its answer has the status "error", or `postJSON`
-- throws.
pub data Answer : Type 0 where
  deleted refused thrown : Answer

-- The versions that Scrapyd has, and how the mutation settles: the number it reports, or an error.
pub record Pruned : Type 0 where
  pub left : List Text
  pub result : Option ℕ

unfoldable pub delete : Text → List Text → List Text
unfolding filter same
delete v vs = filter (λ w. not (same w v)) vs

abbrev pub after_answer : Answer → Pruned → Pruned → List Text → Pruned
after_answer deleted gone kept left = gone
after_answer refused gone kept left = kept
after_answer thrown gone kept left = record { left = left; result = none }

module _ (answer : Text → Answer) where
  -- the loop, for the number to report; the answers are a parameter
  unfoldable pub prune_loop : ℕ → List Text → List Text → Pruned
  unfolding delete
  prune_loop n [] left = record { left = left; result = some n }
  prune_loop n (v ∷ vs) left =
      let gone = prune_loop n vs (delete v left) in
      let kept = prune_loop n vs left in after_answer (answer v) gone kept left

  -- `prune`, when the page's list is what Scrapyd has
  unfoldable pub prune : List Text → Pruned
  unfolding prune_loop
  prune vs = prune_loop (length (old_versions vs)) (old_versions vs) vs

unfoldable pub prune_text : ℕ → Text
prune_text n =
    text "Deleted " ++ (show n ++ (text " old version" ++ (if n == 1 then [] else text "s")))

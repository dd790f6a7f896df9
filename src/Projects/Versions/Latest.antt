-- ===== src/Projects/Versions/Latest.antt =====
-- Deleting the old versions: the latest stays, and what is reported.
use scrapydweb.Base.{
  ℕ, ◌≡◌, refl, ap, true, false, not, ◌&&◌, ◌||◌, some, List, [], ◌∷◌, ◌++◌, Text, same, same_iff,
  same_refl, includes_text, includes_text-append, includes_text-drop, length, arith, All,
}
use scrapydweb.Projects.Versions.{
  Answer, deleted, refused, thrown, old_versions, Pruned, delete, after_answer, prune_loop, prune,
}

old_versions-append : (vs : List Text) (v : Text) → old_versions (vs ++ v ∷ []) ≡ vs
old_versions-append [] v = refl
old_versions-append (w ∷ []) v = refl
old_versions-append (w ∷ u ∷ vs) v = ap (λ (t : List Text). w ∷ t) (old_versions-append (u ∷ vs) v)

includes-delete :
    (v : Text) (vs : List Text) (k : Text)
    → includes_text (delete v vs) k ≡ (not (same v k) && includes_text vs k)
unfolding delete
includes-delete v vs k = includes_text-drop v vs k

kept_after :
    (a : Answer) (gone kept : Pruned) (left : List Text) (k : Text)
    → includes_text gone.left k ≡ true
    → includes_text kept.left k ≡ true
    → includes_text left k ≡ true
    → includes_text (after_answer a gone kept left).left k ≡ true
kept_after deleted gone kept left k g h e = g
kept_after refused gone kept left k g h e = h
kept_after thrown gone kept left k g h e = e

includes-cons :
    (v : Text) (vs : List Text) (k : Text)
    → includes_text (v ∷ vs) k ≡ (same v k || includes_text vs k)
unfolding includes_text
includes-cons v vs k = refl

beside-head :
    (v : Text) (vs : List Text) (k : Text)
    → includes_text (v ∷ vs) k ≡ false
    → (same v k ≡ false) × (includes_text vs k ≡ false)
beside-head v vs k h =
    (ground (arith, h, includes-cons v vs k), ground (arith, h, includes-cons v vs k))

-- the answers that are no exception
abbrev pub Returns : Answer → Type 0
Returns deleted = Unit
Returns refused = Unit
Returns thrown = ⊥

module _ (answer : Text → Answer) where
  -- What is not among the versions to delete stays.
  loop-keeps :
      (n : ℕ) (vs left : List Text) (k : Text)
      → includes_text vs k ≡ false
      → includes_text left k ≡ true
      → includes_text (prune_loop answer n vs left).left k ≡ true
  unfolding prune_loop
  loop-keeps n [] left k h e = e
  loop-keeps n (v ∷ vs) left k h e =
      kept_after (answer v) (prune_loop answer n vs (delete v left)) (prune_loop answer n vs left)
        left k
        (loop-keeps n vs (delete v left) k (beside-head v vs k h).1
          (rw (includes-delete v left k, (beside-head v vs k h).0) e))
        (loop-keeps n vs left k (beside-head v vs k h).1 e) e

  -- However the posts end, the last version of the list is still there.
  pub prune-keeps_latest :
      (vs : List Text) (v : Text)
      → includes_text vs v ≡ false
      → includes_text (prune answer (vs ++ v ∷ [])).left v ≡ true
  unfolding prune
  prune-keeps_latest vs v h =
      loop-keeps (length (old_versions (vs ++ v ∷ []))) (old_versions (vs ++ v ∷ [])) (vs ++ v ∷ [])
        v (rw (old_versions-append vs v) h) (rw (includes_text-append vs v v, h) (same_refl v))

  tally_after :
      (a : Answer) (gone kept : Pruned) (left : List Text) (n : ℕ)
      → Returns a
      → gone.result ≡ some n
      → kept.result ≡ some n
      → (after_answer a gone kept left).result ≡ some n
  tally_after deleted gone kept left n r g h = g
  tally_after refused gone kept left n r g h = h
  tally_after thrown gone kept left n r g h = elim r [ ]

  loop-tally :
      (n : ℕ) (vs left : List Text)
      → All (λ v. Returns (answer v)) vs
      → (prune_loop answer n vs left).result ≡ some n
  unfolding prune_loop
  loop-tally n [] left h = refl
  loop-tally n (v ∷ vs) left h =
      tally_after (answer v) (prune_loop answer n vs (delete v left)) (prune_loop answer n vs left)
        left n h.0 (loop-tally n vs (delete v left) h.1) (loop-tally n vs left h.1)

  -- When no post throws, all old versions are reported as deleted, those that Scrapyd refused to
  -- delete too.
  pub prune-tally :
      (vs : List Text) (v : Text)
      → All (λ w. Returns (answer w)) vs
      → (prune answer (vs ++ v ∷ [])).result ≡ some (length vs)
  unfolding prune
  prune-tally vs v h = rw (old_versions-append vs v) (loop-tally (length vs) vs (vs ++ v ∷ []) h)

  loop-deletes :
      (n : ℕ) (vs left : List Text) (k : Text)
      → All (λ v. answer v ≡ deleted) vs
      → includes_text (prune_loop answer n vs left).left k
        ≡ (not (includes_text vs k) && includes_text left k)
  unfolding prune_loop
  loop-deletes n [] left k h = unfold includes_text in refl
  loop-deletes n (v ∷ vs) left k h =
      rw
        (
          h.0,
          loop-deletes n vs (delete v left) k h.1,
          includes-delete v left k,
          includes-cons v vs k,
        )
        (ground arith)

  -- When Scrapyd deletes each version that it is asked to, the last one alone is left.
  prune-leaves_latest :
      (vs : List Text) (v : Text) (k : Text)
      → All (λ w. answer w ≡ deleted) vs
      → includes_text vs v ≡ false
      → includes_text (prune answer (vs ++ v ∷ [])).left k ≡ same v k
  unfolding prune
  prune-leaves_latest vs v k h e =
      rw
        (
          old_versions-append vs v,
          loop-deletes (length vs) vs (vs ++ v ∷ []) k h,
          includes_text-append vs v k,
        )
        (ground (arith, e, same_iff v k))

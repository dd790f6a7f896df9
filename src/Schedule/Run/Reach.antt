-- ===== src/Schedule/Run/Reach.antt =====
-- What a submission posts: an immediate run reaches every selected node once, and a failure stops it.
use scrapydweb.Base.{ℕ, ◌≡◌, refl, ap, true, false, List, [], ◌∷◌, map, some, Text, arith}
use scrapydweb.Js.Uri.{encode_uri}
use scrapydweb.Payload.{now, ScheduleForm}
use scrapydweb.Schedule.Run.{
  Post, Attempt, resolved, rejected, Reply, FanOut, is_status_ok, others, xhr, fan_out, fan_result,
  fan_out_encoded, fans_out, after_run, check_post, run_post, run,
}

module _ (post_form : Post → Attempt Reply) where
  -- the loop posts to each node in turn, whatever the answers, and has a result for each
  fan_out_lem :
      (file : Text) (ns : List ℕ)
      → ((fan_out post_form file ns).0 ≡ map (λ n. xhr post_form n file) ns)
        × (map (λ (f : FanOut). f.node) (fan_out post_form file ns).1 ≡ ns)
  unfolding fan_out
  fan_out_lem file [] = (refl, refl)
  fan_out_lem file (n ∷ ns) =
      let (p, q) = fan_out_lem file ns in
      (
        ap (λ (t : List Post). xhr post_form n file ∷ t) p,
        head (post_form (xhr post_form n file)) q,
      )
    where
      head :
          (a : Attempt Reply)
          → map (λ (f : FanOut). f.node) (fan_out post_form file ns).1 ≡ ns
          → map (λ (f : FanOut). f.node) (fan_result n a ∷ (fan_out post_form file ns).1) ≡ n ∷ ns
      head (resolved r) q = ap (λ (t : List ℕ). n ∷ t) q
      head (rejected m) q = ap (λ (t : List ℕ). n ∷ t) q

  after_run-now :
      (v : ScheduleForm) (chk res : Reply) (file : Text)
      → v.mode ≡ now
      → is_status_ok res ≡ true
      → encode_uri chk.filename ≡ some file
      → after_run post_form v chk res ≡ fan_out post_form file (others v.nodes)
  unfolding after_run fan_out_encoded
  after_run-now v chk res file m o e = rw (m, o, e)

  run-resolved :
      (node : ℕ) (v : ScheduleForm) (chk res : Reply)
      → post_form (check_post post_form node v) ≡ resolved chk
      → post_form (run_post post_form node v chk) ≡ resolved res
      → ((run post_form node v).posts
          ≡ check_post post_form node v
            ∷ run_post post_form node v chk
            ∷ (after_run post_form v chk res).0)
        × ((run post_form node v).result ≡ resolved (res, (after_run post_form v chk res).1))
  unfolding run
  run-resolved node v chk res c r = (rw (c, run) (rw (r, run)), rw (c, run) (rw (r, run)))

  -- When the check and an immediate run succeed, one post goes to each selected node behind the
  -- first, in order, whatever the others answer, and each has its result.
  pub run-reaches :
      (node : ℕ) (v : ScheduleForm) (chk res : Reply) (file : Text)
      → v.mode ≡ now
      → post_form (check_post post_form node v) ≡ resolved chk
      → post_form (run_post post_form node v chk) ≡ resolved res
      → is_status_ok res ≡ true
      → encode_uri chk.filename ≡ some file
      → (results : List FanOut) × ((run post_form node v).posts
          ≡ check_post post_form node v
            ∷ run_post post_form node v chk
            ∷ map (λ n. xhr post_form n file) (others v.nodes))
        × ((run post_form node v).result ≡ resolved (res, results))
        × (map (λ (f : FanOut). f.node) results ≡ others v.nodes)
  run-reaches node v chk res file m c r o e =
      let (posts, result) = run-resolved node v chk res c r in
      let now_run = after_run-now v chk res file m o e in
      let (p, q) = fan_out_lem file (others v.nodes) in
      (
        (fan_out post_form file (others v.nodes)).1,
        rw posts (rw (now_run, p)),
        rw result (rw now_run),
        q,
      )

  -- A rejected check is the only post, and its message is the mutation's.
  run-rejected :
      (node : ℕ) (v : ScheduleForm) (m : Text)
      → post_form (check_post post_form node v) ≡ rejected m
      → ((run post_form node v).posts ≡ check_post post_form node v ∷ [])
        × ((run post_form node v).result ≡ rejected m)
  unfolding run
  run-rejected node v m c = ground arith

  -- After a run that is for a timer task, or whose status is not ok, nothing is fanned out.
  run-stops :
      (node : ℕ) (v : ScheduleForm) (chk res : Reply)
      → post_form (check_post post_form node v) ≡ resolved chk
      → post_form (run_post post_form node v chk) ≡ resolved res
      → fans_out post_form v.mode res ≡ false
      → ((run post_form node v).posts
          ≡ check_post post_form node v ∷ run_post post_form node v chk ∷ [])
        × ((run post_form node v).result ≡ resolved (res, []))
  unfolding run after_run
  run-stops node v chk res c r f = ground arith

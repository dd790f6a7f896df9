-- ===== src/Payload/Sanitize.antt =====
-- `sanitizeJobid`: every unit outside [0-9A-Za-z_-] becomes a dash.
use scrapydweb.Base.{
  ℕ, ◌≡◌, refl, Bool, true, ◌||◌, [], ◌∷◌, map, Text, text, arith, All, length, ◌==◌, if◌then◌else◌,
  ◌↔◌,
}
use mathlib.Core.Path.{subst}
use scrapydweb.Js.Uri.{is_alnum}

unfoldable pub is_legal : ℕ → Bool
unfolding is_alnum
is_legal c = is_alnum c || (c == 95) || (c == 45)

unfoldable pub sanitize_unit : ℕ → ℕ
sanitize_unit c = if is_legal c then c else b'-'

unfoldable pub sanitize_jobid : Text → Text
unfolding sanitize_unit
sanitize_jobid s = map sanitize_unit s

abbrev pub IsLegal : Text → Type 0
IsLegal s = All (λ c. is_legal c ≡ true) s

is_legal-sanitize_unit : (c : ℕ) → is_legal (sanitize_unit c) ≡ true
unfolding sanitize_unit is_legal
is_legal-sanitize_unit c = ground arith

sanitize_unit_id : (c : ℕ) → is_legal c ≡ true → sanitize_unit c ≡ c
unfolding sanitize_unit
sanitize_unit_id c h = ground arith

sanitize_jobid-length :
    (s : Text) → IsLegal (sanitize_jobid s) × (length (sanitize_jobid s) ≡ length s)
unfolding sanitize_jobid
sanitize_jobid-length [] = (tt, refl)
sanitize_jobid-length (c ∷ s) =
    let (legal, len) = sanitize_jobid-length s in
    ((unfold sanitize_unit is_legal in ground arith, legal), omega arith)

sanitize_jobid_id : (s : Text) → IsLegal s → sanitize_jobid s ≡ s
unfolding sanitize_jobid
sanitize_jobid_id [] h = refl
sanitize_jobid_id (c ∷ s) h = cc (sanitize_unit_id c h.0, sanitize_jobid_id s h.1)

-- A sanitized job id has the same length and legal units only, and a job id is left alone exactly
-- when it is legal already.
pub sanitize_jobid-IsLegal :
    (s : Text)
    → IsLegal (sanitize_jobid s)
      × (length (sanitize_jobid s) ≡ length s)
      × ((sanitize_jobid s ≡ s) ↔ IsLegal s)
sanitize_jobid-IsLegal s =
    let (legal, len) = sanitize_jobid-length s in
    (legal, len, (λ e. subst (λ t. IsLegal t) e legal, sanitize_jobid_id s))

sanitize_test : sanitize_jobid (text "a b/é_1") ≡ text "a-b--_1"
unfolding sanitize_jobid is_legal
sanitize_test = refl

-- ===== src/Groups/Page/Reach.antt =====
-- The page with the saved groups: each step of the user and the backend, and what holds in every
-- state that the steps reach.
use mathlib.Core.Path.{subst}
use scrapydweb.Base.{
  All, ◌||◌, sym, ◌++◌, false, ℕ, ◌≡◌, refl, Bool, true, not, ◌&&◌, List, [], ◌∷◌, Option, none,
  some, any, filter, ◌==◌, ==_iff, Bool-cases, inl, inr, ◌∙◌, arith,
}
use scrapydweb.Api.Types.{JobGroup}
use scrapydweb.Groups.Form.{GroupForm}
use scrapydweb.Groups.Page.{PageState, SaveReply, saved, reset, edit, edits, after_save, remove}

pub record World : Type 0 where
  pub page : PageState
  pub groups : List JobGroup
  -- the removals under way: `editingId` when the button was clicked, and the group's id
  pub pending : List (Option ℕ × ℕ)

unfoldable pub has_id : List JobGroup → ℕ → Bool
has_id groups id = any (λ (g : JobGroup). g.id == id) groups

unfoldable pub without : List JobGroup → ℕ → List JobGroup
without groups id = filter (λ (g : JobGroup). not (g.id == id)) groups

unfoldable pub is_listed : Option ℕ → List JobGroup → Bool
is_listed none groups = true
is_listed (some id) groups = has_id groups id

-- One event. The list has all ids that it had after a create or an update; a reply that is not "ok"
-- leaves it. A removal starts with the click and ends with the backend's answer, which takes the group's
-- id away, or without one; the user edits no group whose removal is under way.
pub data Step (node : ℕ) : World → World → Type 0 where
  typed : (w : World) (v : GroupForm) → Step node w (record w { page = record w.page { form = v } })
  edited :
      (w : World) (g : JobGroup)
      → has_id w.groups g.id ≡ true
      → All (λ p. (g.id == p.1) ≡ false) w.pending
      → Step node w (record w { page = edit node g w.page })
  cancelled : (w : World) → Step node w (record w { page = reset node w.page })
  answered :
      (w : World) (r : SaveReply) (groups : List JobGroup)
      → ((id : ℕ) → has_id w.groups id ≡ true → has_id groups id ≡ true)
      → Step node w (record w { page = (after_save node r w.page).0; groups = groups })
  asked :
      (w : World) (g : JobGroup)
      → Step node w (record w { pending = (w.page.editing, g.id) ∷ w.pending })
  given_up :
      (w : World) (p : Option ℕ × ℕ) (before after : List (Option ℕ × ℕ))
      → w.pending ≡ before ++ p ∷ after
      → Step node w (record w { pending = before ++ after })
  removed :
      (w : World) (rendered : Option ℕ) (g : JobGroup) (before after : List (Option ℕ × ℕ))
      → w.pending ≡ before ++ (rendered, g.id) ∷ after
      → Step node w (record {
        page = (remove node rendered true true g w.page).0;
        groups = without w.groups g.id;
        pending = before ++ after;
      })

pub data Steps (node : ℕ) : World → World → Type 0 where
  done : (w : World) → Steps node w w
  step : (w v u : World) → Step node w v → Steps node v u → Steps node w u

has_id-without :
    (groups : List JobGroup) (gone id : ℕ)
    → has_id (without groups gone) id ≡ (not (gone == id) && has_id groups id)
unfolding has_id without any filter
has_id-without [] gone id = ground arith
has_id-without (g ∷ groups) gone id = ground (arith, has_id-without groups gone id)

listed-kept :
    (e : Option ℕ) (gs hs : List JobGroup)
    → ((id : ℕ) → has_id gs id ≡ true → has_id hs id ≡ true)
    → is_listed e gs ≡ true
    → is_listed e hs ≡ true
unfolding is_listed
listed-kept none gs hs k h = refl
listed-kept (some id) gs hs k h = k id h

-- A removal under way of the group that is edited was clicked while it was edited.
abbrev Settles : Option ℕ → Option ℕ × ℕ → Type 0
Settles e p = (not (edits e p.1) || edits p.0 p.1) ≡ true

Settles-none : (ps : List (Option ℕ × ℕ)) → All (Settles none) ps
Settles-none [] = tt
Settles-none (p ∷ ps) = (refl, Settles-none ps)

Settles-edit :
    (id : ℕ) (ps : List (Option ℕ × ℕ))
    → All (λ p. (id == p.1) ≡ false) ps
    → All (Settles (some id)) ps
Settles-edit id [] h = tt
Settles-edit id (p ∷ ps) h = (rw h.0 refl, Settles-edit id ps h.1)

Settles-self : (e : Option ℕ) (id : ℕ) → Settles e (e, id)
Settles-self e id = elim (Bool-cases (edits e id)) [ inl t ↦ rw t refl | inr f ↦ rw f refl ]

-- one is left out
All-others :
    (P : Option ℕ × ℕ → Type 0) (p : Option ℕ × ℕ) (before after : List (Option ℕ × ℕ))
    → All P (before ++ p ∷ after)
    → P p × All P (before ++ after)
All-others P p [] after h = (h.0, h.1)
All-others P p (b ∷ before) after h =
    let rest = All-others P p before after h.1 in (rest.0, (h.0, rest.1))

-- what holds in every state: the edited group is listed, and the removals under way are no surprise
abbrev IsSound : World → Type 0
IsSound w = (is_listed w.page.editing w.groups ≡ true) × All (Settles w.page.editing) w.pending

after_save_sound :
    (node : ℕ) (r : SaveReply) (s : PageState) (gs : List JobGroup) (ps : List (Option ℕ × ℕ))
    → is_listed s.editing gs ≡ true
    → All (Settles s.editing) ps
    → (is_listed (after_save node r s).0.editing gs ≡ true)
      × All (Settles (after_save node r s).0.editing) ps
unfolding after_save is_listed reset
after_save_sound node (saved name) s gs ps h k = (refl, Settles-none ps)
after_save_sound node (SaveReply.refused m) s gs ps h k = (h, k)
after_save_sound node (SaveReply.broken m) s gs ps h k = (h, k)

-- the edited group among the ones that are left
listed-without :
    (e : Option ℕ) (gone : ℕ) (gs : List JobGroup)
    → is_listed e gs ≡ true
    → is_listed e (without gs gone) ≡ not (edits e gone)
unfolding is_listed
listed-without none gone gs h = refl
listed-without (some id) gone gs h =
    has_id-without gs gone id ∙ ground (arith, h, ==_iff id gone, ==_iff gone id)

-- After a removal the page edits a group that is gone exactly when it edited that group by then and did
-- not when the button was clicked.
pub is_listed-remove :
    (node : ℕ) (rendered : Option ℕ) (g : JobGroup) (s : PageState) (gs : List JobGroup)
    → is_listed s.editing gs ≡ true
    → is_listed (remove node rendered true true g s).0.editing (without gs g.id)
      ≡ not (edits s.editing g.id && not (edits rendered g.id))
unfolding remove reset is_listed
is_listed-remove node rendered g s gs h = elim (Bool-cases (edits rendered g.id)) [
  | inl e ↦ rw e (ground arith)
  | inr e ↦ rw e (listed-without s.editing g.id gs h ∙ ground arith)
]

remove-Settles :
    (node : ℕ) (rendered : Option ℕ) (g : JobGroup) (s : PageState) (ps : List (Option ℕ × ℕ))
    → All (Settles s.editing) ps
    → All (Settles (remove node rendered true true g s).0.editing) ps
unfolding remove reset
remove-Settles node rendered g s ps h = elim (Bool-cases (edits rendered g.id)) [
  | inl e ↦ rw e (Settles-none ps)
  | inr e ↦ rw e h
]

settled : (a b : Bool) → (not a || b) ≡ true → not (a && not b) ≡ true
settled true true h = refl
settled true false h = h
settled false b h = refl

Step-IsSound : (node : ℕ) (w v : World) → Step node w v → IsSound w → IsSound v
Step-IsSound node w v (typed _ f) h = h
Step-IsSound node w v (edited _ g e n) h =
    (unfold edit is_listed in e, unfold edit in Settles-edit g.id w.pending n)
Step-IsSound node w v (cancelled _) h =
    (unfold reset is_listed in refl, unfold reset in Settles-none w.pending)
Step-IsSound node w v (answered _ r groups k) h =
    after_save_sound node r w.page groups w.pending
      (listed-kept w.page.editing w.groups groups k h.0) h.1
Step-IsSound node w v (asked _ g) h = (h.0, (Settles-self w.page.editing g.id, h.1))
Step-IsSound node w v (given_up _ p before after e) h =
    (h.0, (All-others (Settles w.page.editing) p before after (rw e at h.1)).1)
Step-IsSound node w v (removed _ rendered g before after e) h =
    let (mine, others) =
      All-others (Settles w.page.editing) (rendered, g.id) before after (rw e at h.1) in
    (
      is_listed-remove node rendered g w.page w.groups h.0
          ∙ settled (edits w.page.editing g.id) (edits rendered g.id) mine,
      remove-Settles node rendered g w.page (before ++ after) others,
    )

Steps-IsSound : (node : ℕ) (w v : World) → Steps node w v → IsSound w → IsSound v
Steps-IsSound node w v (done _) h = h
Steps-IsSound node w v (step _ u _ s rest) h =
    Steps-IsSound node u v rest (Step-IsSound node w u s h)

-- On every run of the page in which no group is edited whose removal is under way, the group that is being
-- edited is one of the saved groups, if it was at the start, with no removal under way: nothing that is
-- saved can update a group that is gone.
pub Steps-listed :
    (node : ℕ) (w v : World)
    → Steps node w v
    → is_listed w.page.editing w.groups ≡ true
    → w.pending ≡ []
    → is_listed v.page.editing v.groups ≡ true
Steps-listed node w v run h e =
    (Steps-IsSound node w v run (h, subst (λ ps. All (Settles w.page.editing) ps) (sym e) tt)).0

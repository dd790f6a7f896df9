-- ===== src/Base/Objects.antt =====
-- An object used as a dictionary: keys in the order of their first insertion.
use mathlib.Core.Path.{◌≡◌, refl, ap}
use mathlib.Core.Bool.{false}
use mathlib.Core.Option.{Option, none, some}
use mathlib.Core.List.{List, [], ◌∷◌, ◌++◌}
use native.Mathlib.Omega.{arith}
use scrapydweb.Base.Tests.{if◌then◌else◌}
use scrapydweb.Base.Texts.{Text, same, same_iff, same_refl}

abbrev pub Obj {ℓ} : Type ℓ → Type ℓ
Obj V = List (Text × V)

module _ {ℓ} {V : Type ℓ} where
  -- `o[k]`
  unfoldable pub get : Text → Obj V → Option V
  get k [] = none
  get k ((j, v) ∷ o) = let rest = get k o in if same j k then some v else rest

  -- `o[k] = v`
  unfoldable pub put : Text → V → Obj V → Obj V
  put k v [] = (k, v) ∷ []
  put k v ((j, w) ∷ o) = let rest = put k v o in if same j k then (j, v) ∷ o else (j, w) ∷ rest

  -- `delete o[k]`
  unfoldable pub del : Text → Obj V → Obj V
  del k [] = []
  del k ((j, w) ∷ o) = let rest = del k o in if same j k then rest else (j, w) ∷ rest

  -- `Object.fromEntries(ps)`, onto the pairs already there
  unfoldable pub put_all : List (Text × V) → Obj V → Obj V
  put_all [] o = o
  put_all ((k, v) ∷ ps) o = put_all ps (put k v o)

  pub get-put :
      (k j : Text) (v : V) (o : Obj V) → get j (put k v o) ≡ (if same k j then some v else get j o)
  unfolding get put
  get-put k j v [] = refl
  get-put k j v ((i, w) ∷ o) =
      ground (arith, same_iff k j, same_iff i k, same_iff i j, get-put k j v o)

  pub get-del : (k j : Text) (o : Obj V) → get j (del k o) ≡ (if same k j then none else get j o)
  unfolding get del
  get-del k j [] = ground arith
  get-del k j ((i, w) ∷ o) = ground (arith, same_iff k j, same_iff i k, same_iff i j, get-del k j o)

  pub get-put_self : (k : Text) (v : V) (o : Obj V) → get k (put k v o) ≡ some v
  get-put_self k v o = simp (get-put, same_refl)

  -- the value that a run of assignments leaves at `k`
  unfoldable pub assigned : List (Text × V) → Text → Option V
  assigned [] k = none
  assigned ((j, v) ∷ ps) k = elim (assigned ps k) [
    | some w ↦ some w
    | none ↦ if same j k then some v else none
  ]

  abbrev pub first_some : Option V → Option V → Option V
  first_some none d = d
  first_some (some v) d = some v

  pub get-put_all :
      (k : Text) (ps : List (Text × V)) (o : Obj V)
      → get k (put_all ps o) ≡ first_some (assigned ps k) (get k o)
  unfolding put_all assigned
  get-put_all k [] o = refl
  get-put_all k ((j, v) ∷ ps) o = ground (arith, get-put_all k ps (put j v o), get-put j k v o)

  -- no key of the list is `k`
  abbrev pub Misses : List (Text × V) → Text → Type 0
  Misses [] k = Unit
  Misses ((j, v) ∷ ps) k = (same j k ≡ false) × Misses ps k

  pub assigned-Misses : (ps : List (Text × V)) (k : Text) → Misses ps k → assigned ps k ≡ none
  unfolding assigned
  assigned-Misses [] k h = refl
  assigned-Misses ((j, v) ∷ ps) k h = rw (assigned-Misses ps k h.1, h.0)

  pub get-Misses : (k : Text) (o : Obj V) → Misses o k → get k o ≡ none
  unfolding get
  get-Misses k [] h = refl
  get-Misses k ((j, v) ∷ o) h = rw h.0 (get-Misses k o h.1)

  -- A new key goes behind the others.
  pub put-Misses : (k : Text) (v : V) (o : Obj V) → Misses o k → put k v o ≡ o ++ (k, v) ∷ []
  unfolding put
  put-Misses k v [] h = refl
  put-Misses k v ((j, w) ∷ o) h = rw h.0 (ap (λ (t : Obj V). (j, w) ∷ t) (put-Misses k v o h.1))

  pub Misses-append :
      (o : Obj V) (k : Text) (v : V) (j : Text)
      → Misses o j
      → same k j ≡ false
      → Misses (o ++ (k, v) ∷ []) j
  Misses-append [] k v j h e = (e, tt)
  Misses-append ((i, w) ∷ o) k v j h e = (h.0, Misses-append o k v j h.1 e)

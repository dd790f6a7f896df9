-- ===== src/Settings/ListInput.antt =====
-- `ListInput`: the text while a list is typed, and the value that its parent keeps.
use scrapydweb.Base.{
  ◌≡◌, ◌⊎◌, inl, inr, refl, sym, ap, ◌∙◌, Bool, true, false, not, ◌&&◌, ◌||◌, List, [], ◌∷◌, map,
  Text, truthy, same, same-eq, filter, All, Bool-cases, arith,
}
use scrapydweb.Js.Strings.{trim, split, has_unit}
use scrapydweb.Js.Trimmed.{trim_twice, trim-blank, trim-free, split-All}
use scrapydweb.Settings.Controls.{list_parts, canonical, IsItem, list_parts-canonical}

trimmed-items :
    (ps : List Text)
    → All (λ p. has_unit 44 p ≡ false) ps
    → All IsItem (filter truthy (map trim ps))
unfolding filter
trimmed-items [] h = tt
trimmed-items (p ∷ ps) h = elim (Bool-cases (truthy (trim p))) [
  | inl e ↦ rw e (
    (e, trim-free 44 p h.0, trim_twice p, trim-blank (trim p) ∙ trim_twice p),
    trimmed-items ps h.1,
  )
  | inr e ↦ rw e (trimmed-items ps h.1)
]

-- Whatever is typed is read as a list of items.
list_parts-items : (s : Text) → All IsItem (list_parts s)
unfolding list_parts
list_parts-items s = trimmed-items (split 44 s) (split-All 44 s)

-- `text` and `editing`, and the value of the parent, for a list of texts
pub record ListState : Type 0 where
  pub shown : Text
  pub editing : Bool
  pub value : List Text

unfoldable pub mount : List Text → ListState
unfolding canonical
mount items = record { shown = canonical items; editing = false; value = items }

pub data Event : Type 0 where
  focus blur : Event
  typed : Text → Event
  -- the parent's value changes otherwise: a reset, a discarded draft, new data
  given : List Text → Event

-- the handler of an event, and the parent's new value
unfoldable pub handle : Event → ListState → ListState
unfolding list_parts
handle focus s = record s { editing = true }
handle blur s = record s { editing = false }
handle (typed t) s = record s { shown = t; value = list_parts t }
handle (given items) s = record s { value = items }

-- the effect, which runs when `canonical` or `editing` is not what it was
abbrev is_same : Bool → Bool → Bool
is_same true b = b
is_same false b = not b

unfoldable pub is_stale : ListState → ListState → Bool
unfolding canonical same
is_stale old s =
    not s.editing
    && (not (same (canonical old.value) (canonical s.value)) || not (is_same old.editing s.editing))

abbrev refresh : Bool → ListState → ListState
refresh true s = record s { shown = canonical s.value }
refresh false s = s

unfoldable pub resync : ListState → ListState → ListState
unfolding is_stale canonical
resync old s = refresh (is_stale old s) s

unfoldable pub step : Event → ListState → ListState
unfolding handle resync
step e s = resync s (handle e s)

abbrev pub IsGiven : Event → Type 0
IsGiven focus = Unit
IsGiven blur = Unit
IsGiven (typed t) = Unit
IsGiven (given items) = All IsItem items

unfoldable pub run : List Event → ListState → ListState
unfolding step
run [] s = s
run (e ∷ es) s = run es (step e s)

-- The value has items only, and the text reads as the value unless the field is being edited.
pub record IsRead (s : ListState) : Type 0 where
  pub items : All IsItem s.value
  pub reads : (s.editing ≡ true) ⊎ (list_parts s.shown ≡ s.value)

refresh-IsRead :
    (b : Bool) (s : ListState)
    → All IsItem s.value
    → (b ≡ false → (s.editing ≡ true) ⊎ (list_parts s.shown ≡ s.value))
    → IsRead (refresh b s)
refresh-IsRead true s items keep = record {
  items = items;
  reads = inr (list_parts-canonical s.value items);
}
refresh-IsRead false s items keep = record { items = items; reads = keep refl }

-- Two lists of items with one text are one list.
canonical_injective :
    (xs ys : List Text)
    → All IsItem xs
    → All IsItem ys
    → same (canonical xs) (canonical ys) ≡ true
    → xs ≡ ys
canonical_injective xs ys h k e =
    sym (list_parts-canonical xs h)
    ∙ ap list_parts (same-eq (canonical xs) (canonical ys) e)
    ∙ list_parts-canonical ys k

kept :
    (items : List Text) (s : ListState)
    → All IsItem items
    → IsRead s
    → list_parts s.shown ≡ s.value
    → (s.editing ≡ true) ⊎ (s.editing ≡ false)
    → is_stale s (record s { value = items }) ≡ false
    → (s.editing ≡ true) ⊎ (list_parts s.shown ≡ items)
unfolding is_stale
kept items s g r q (inl t) e = inl t
kept items s g r q (inr f) e =
    inr (q ∙ canonical_injective s.value items r.items g (ground (arith, e, f)))

step-IsRead : (e : Event) (s : ListState) → IsGiven e → IsRead s → IsRead (step e s)
unfolding step handle resync
step-IsRead focus s g r =
    refresh-IsRead (is_stale s (handle focus s)) (handle focus s) r.items λ e. inl refl
step-IsRead blur s g r =
    refresh-IsRead (is_stale s (handle blur s)) (handle blur s) r.items
      λ e. elim r.reads [ inl t ↦ ground (arith, e, t) | inr q ↦ inr q ]
step-IsRead (typed t) s g r =
    refresh-IsRead (is_stale s (handle (typed t) s)) (handle (typed t) s) (list_parts-items t)
      λ e. inr refl
step-IsRead (given items) s g r =
    refresh-IsRead (is_stale s (handle (given items) s)) (handle (given items) s) g
      λ e. elim r.reads [ inl t ↦ inl t | inr q ↦ kept items s g r q (Bool-cases s.editing) e ]

mount-IsRead : (items : List Text) → All IsItem items → IsRead (mount items)
unfolding mount
mount-IsRead items h = record { items = h; reads = inr (list_parts-canonical items h) }

run-IsRead : (es : List Event) (s : ListState) → All IsGiven es → IsRead s → IsRead (run es s)
unfolding run
run-IsRead [] s g r = r
run-IsRead (e ∷ es) s g r = run-IsRead es (step e s) g.1 (step-IsRead e s g.0 r)

-- For a list of texts that begins as items: whatever is typed, and whichever lists of items the
-- parent gives meanwhile, the parent's value is a list of items, and the text shown reads as that
-- value whenever the field is not being edited.
pub run-mount :
    (items : List Text) (es : List Event)
    → All IsItem items
    → All IsGiven es
    → IsRead (run es (mount items))
run-mount items es h g = run-IsRead es (mount items) g (mount-IsRead items h)

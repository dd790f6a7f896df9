-- ===== src/Schedule/Cards/Keys.antt =====
-- The combobox keeps the keys of the rows apart.
use scrapydweb.Base.{
  ℕ, zero, suc, ◌≡◌, refl, sym, ap, ◌∙◌, Bool, true, false, not, ◌&&◌, ◌||◌, some, some-inj, List,
  [], ◌∷◌, Text, truthy, same, same_iff, same-eq, same_sym, includes_text, get_elem?, if◌then◌else◌,
  arith, Bool-cases, inl, inr,
}
use scrapydweb.Payload.{Row}
use scrapydweb.Schedule.Cards.{used_keys, is_listed, pick_key}

-- No text of the list comes again.
unfoldable pub distinct : List Text → Bool
unfolding includes_text
distinct [] = true
distinct (x ∷ xs) = not (includes_text xs x) && distinct xs

used-cons :
    (r : Row) (rows : List Row)
    → used_keys (r ∷ rows) ≡ (if truthy r.key then r.key ∷ used_keys rows else used_keys rows)
unfolding used_keys
used-cons r rows = refl

includes-cons :
    (x : Text) (xs : List Text) (k : Text)
    → includes_text (x ∷ xs) k ≡ (same x k || includes_text xs k)
unfolding includes_text
includes-cons x xs k = refl

distinct-cons :
    (x : Text) (xs : List Text) → distinct (x ∷ xs) ≡ (not (includes_text xs x) && distinct xs)
unfolding distinct
distinct-cons x xs = refl

-- the keys used by a row and the rows behind it
abbrev with_key : Text → List Text → List Text
with_key k used = if truthy k then k ∷ used else used

includes-with_key :
    (k : Text) (used : List Text) (j : Text)
    → includes_text (with_key k used) j ≡ ((truthy k && same k j) || includes_text used j)
includes-with_key k used j = elim (Bool-cases (truthy k)) [
  | inl e ↦ rw e (includes-cons k used j)
  | inr e ↦ rw e refl
]

distinct-with_key :
    (k : Text) (used : List Text)
    → distinct (with_key k used) ≡ ((not (truthy k) || not (includes_text used k)) && distinct used)
distinct-with_key k used = elim (Bool-cases (truthy k)) [
  | inl e ↦ rw e (distinct-cons k used)
  | inr e ↦ rw e refl
]

includes-used :
    (r : Row) (rows : List Row) (j : Text)
    → includes_text (used_keys (r ∷ rows)) j
      ≡ ((truthy r.key && same r.key j) || includes_text (used_keys rows) j)
includes-used r rows j = rw (used-cons r rows) (includes-with_key r.key (used_keys rows) j)

distinct-used :
    (r : Row) (rows : List Row)
    → distinct (used_keys (r ∷ rows)) ≡ (
        (not (truthy r.key) || not (includes_text (used_keys rows) r.key))
        && distinct (used_keys rows))
distinct-used r rows = rw (used-cons r rows) (distinct-with_key r.key (used_keys rows))

abbrev picked : Text → Row
picked k = record { key = k; value = [] }

-- A row's key is used.
used-row :
    (rows : List Row) (i : ℕ) (r : Row)
    → get_elem? rows i ≡ some r
    → truthy r.key ≡ true
    → includes_text (used_keys rows) r.key ≡ true
used-row [] i r h t = cc
used-row (s ∷ rows) zero r h t =
    let e = ap (λ (r : Row). r.key) (some-inj h) in
    let t' = ap truthy e ∙ t in
    ground (arith, includes-used s rows r.key, same_iff s.key r.key, e, t')
used-row (s ∷ rows) (suc i) r h t =
    ground (arith, includes-used s rows r.key, used-row rows i r h t)

-- A used key after a pick was used before it or is the one picked.
used-pick :
    (rows : List Row) (i : ℕ) (k j : Text)
    → includes_text (used_keys (pick_key i k rows)) j ≡ true
    → (same k j || includes_text (used_keys rows) j) ≡ true
unfolding pick_key
used-pick [] i k j h = ground (arith, h)
used-pick (s ∷ rows) zero k j h =
    ground (arith, h, includes-used (picked k) rows j, includes-used s rows j)
used-pick (s ∷ rows) (suc i) k j h =
    ground (
      arith,
      h,
      includes-used s (pick_key i k rows) j,
      includes-used s rows j,
      used-pick rows i k j,
    )

same-key :
    (s : Row) (rows : List Row) (k : Text)
    → k ≡ s.key
    → distinct (used_keys (picked k ∷ rows)) ≡ distinct (used_keys (s ∷ rows))
same-key s rows k e = rw (distinct-used (picked k) rows, distinct-used s rows, e) refl

-- The key of a row stays unused by the rows behind it, of which one picks another key.
no-clash :
    (s : Row) (rows : List Row) (i : ℕ) (r : Row) (k : Text)
    → get_elem? rows i ≡ some r
    → is_listed r.key (used_keys (s ∷ rows)) k ≡ true
    → truthy s.key ≡ true
    → includes_text (used_keys rows) s.key ≡ false
    → includes_text (used_keys (pick_key i k rows)) s.key ≡ false
unfolding is_listed
no-clash s rows i r k e l t f =
    elim (Bool-cases (includes_text (used_keys (pick_key i k rows)) s.key)) [
      | inr g ↦ g
      | inl h ↦
          let p = picks (used-pick rows i k s.key h) in
          elim (Bool-cases (same k r.key)) [
            | inl u ↦
                let q = sym (same-eq k r.key u) ∙ same-eq k s.key p in
                ground (
                  arith,
                  f,
                  ap (includes_text (used_keys rows)) q,
                  used-row rows i r e (ap truthy q ∙ t),
                )
            | inr u ↦ ground (arith, l, u, includes-used s rows k, t, p, same_sym s.key k)
          ]
    ]
  where
    picks : (same k s.key || includes_text (used_keys rows) s.key) ≡ true → same k s.key ≡ true
    picks h = ground (arith, f, h)

-- When no two rows of settings use the same key, picking for a row a key that is listed for it (its
-- own, or one that no row uses) leaves that so.
pub pick_key-distinct :
    (rows : List Row) (i : ℕ) (r : Row) (k : Text)
    → get_elem? rows i ≡ some r
    → is_listed r.key (used_keys rows) k ≡ true
    → distinct (used_keys rows) ≡ true
    → distinct (used_keys (pick_key i k rows)) ≡ true
unfolding pick_key is_listed
pick_key-distinct [] i r k e l d = cc
pick_key-distinct (s ∷ rows) zero r k e l d = elim (Bool-cases (same k r.key)) [
  | inl u ↦ same-key s rows k (same-eq k r.key u ∙ sym (ap (λ (r : Row). r.key) (some-inj e))) ∙ d
  | inr u ↦
      ground (
        arith,
        l,
        u,
        d,
        includes-used s rows k,
        distinct-used (picked k) rows,
        distinct-used s rows,
      )
]
pick_key-distinct (s ∷ rows) (suc i) r k e l d = ground (
  arith,
  d,
  distinct-used s rows,
  distinct-used s (pick_key i k rows),
  l,
  includes-used s rows k,
  no-clash s rows i r k e l,
  pick_key-distinct rows i r k e,
)

-- ===== src/Schedule/Cards/Offered.antt =====
-- What `SettingKeyCombobox` offers leaves the keys of the rows sound.
use scrapydweb.Base.{
  ℕ, ◌≡◌, Bool, true, ◌&&◌, &&-true, some, List, [], ◌∷◌, ◌++◌, Text, text, get_elem?, filter,
  All-kept, All, Bool-cases, inl, inr, arith,
}
use scrapydweb.Js.View.{Shown, when, concat_map, Raises, Raises-append, Raises-when}
use scrapydweb.Js.View
use scrapydweb.Catalogue.{ScrapySettingDef}
use scrapydweb.Catalogue.Entries.{scrapy_settings}
use scrapydweb.Catalogue.Keys.{setting_key_re, scrapy_settings_lem}
use scrapydweb.Payload.{Row}
use scrapydweb.Schedule.Cards.{
  used_keys, custom_key, custom_valid, is_listed, listed_settings, pick_key,
}
use scrapydweb.Schedule.Cards.Keys.{distinct, pick_key-distinct}
use scrapydweb.Schedule.Cards.KeyBox.{
  BoxState, Event, open_change, type_search, pick, setting_item, items, box_view,
}

-- What is right of a key that is picked for row `i`: it has the form of a setting's key, and after it is
-- picked no two rows have one key.
abbrev pub IsFresh : List Row → ℕ → Event → Type 0
IsFresh rows i (pick k) =
    (setting_key_re k ≡ true) × (distinct (used_keys (pick_key i k rows)) ≡ true)
IsFresh rows i (open_change b) = Unit
IsFresh rows i (type_search t) = Unit

-- an entry of the catalogue that is listed
abbrev IsOffered : Text → List Text → ScrapySettingDef → Type 0
IsOffered value used d = (setting_key_re d.key ≡ true) × (is_listed value used d.key ≡ true)

-- the entries that are kept, with what is known of each and the test
All-listed :
    (p : ScrapySettingDef → Bool) (ds : List ScrapySettingDef)
    → All (λ d. setting_key_re d.key ≡ true) ds
    → All (λ d. (setting_key_re d.key ≡ true) × (p d ≡ true)) (filter p ds)
unfolding filter
All-listed p [] h = tt
All-listed p (d ∷ ds) h = elim (Bool-cases (p d)) [
  | inl e ↦ rw e ((h.0, e), All-listed p ds h.1)
  | inr e ↦ rw e (All-listed p ds h.1)
]

listed-IsOffered :
    (value : Text) (used : List Text) → All (IsOffered value used) (listed_settings value used)
unfolding listed_settings
listed-IsOffered value used =
    All-listed (λ (s : ScrapySettingDef). is_listed value used s.key) scrapy_settings
      scrapy_settings_lem

custom-IsOffered :
    (to_upper : Text → Text) (search value : Text) (used : List Text)
    → custom_valid to_upper search used ≡ true
    → (setting_key_re (custom_key to_upper search) ≡ true)
      × (is_listed value used (custom_key to_upper search) ≡ true)
unfolding custom_valid is_listed
custom-IsOffered to_upper search value used h = ground (arith, h)

module _ (to_upper : Text → Text) (fits : Text → Text → Bool) (rows : List Row) (i : ℕ) (r : Row)
    (at : get_elem? rows i ≡ some r) (apart : distinct (used_keys rows) ≡ true) where
  settings-IsFresh :
      (ds : List ScrapySettingDef)
      → All (IsOffered r.key (used_keys rows)) ds
      → All (Raises (IsFresh rows i)) (concat_map setting_item ds)
  unfolding setting_item
  settings-IsFresh [] h = tt
  settings-IsFresh (d ∷ ds) h = (
    (h.0.0, pick_key-distinct rows i r d.key at h.0.1 apart),
    (tt, (tt, settings-IsFresh ds h.1)),
  )

  items-IsFresh :
      (search : Text)
      → All (Raises (IsFresh rows i)) (items to_upper fits r.key (used_keys rows) search)
  unfolding items
  items-IsFresh search =
      let custom = custom_key to_upper search in
      let valid = custom_valid to_upper search (used_keys rows) in
      let kept =
        filter (λ (d : ScrapySettingDef). fits search d.key)
          (listed_settings r.key (used_keys rows)) in
      Raises-append (IsFresh rows i) _ (concat_map setting_item kept)
        (Raises-when (IsFresh rows i) (valid && fits search (text "custom-" ++ custom)) _ (λ h.
          let c = custom-IsOffered to_upper search r.key (used_keys rows) (&&-true valid _ h).0 in
          ((c.0, pick_key-distinct rows i r custom at c.1 apart), tt)))
        (settings-IsFresh kept (
          All-kept (IsOffered r.key (used_keys rows)) _ _
            (listed-IsOffered r.key (used_keys rows))))

  -- When no two rows use the same key, whatever key the box of a row offers, from the list or typed, has
  -- the form of a setting's key, and after it is picked no two rows use the same key.
  pub box_view-IsFresh :
      (s : BoxState)
      → All (Raises (IsFresh rows i)) (box_view to_upper fits r.key (used_keys rows) s)
  unfolding box_view
  box_view-IsFresh s = (
    tt,
    (
      (λ t. tt),
      Raises-append (IsFresh rows i) (items to_upper fits r.key (used_keys rows) s.search) _
          (items-IsFresh s.search)
          (Raises-when (IsFresh rows i) _ (View.says (text "no matching setting") ∷ [])
            (λ h. (tt, tt))),
    ),
  )

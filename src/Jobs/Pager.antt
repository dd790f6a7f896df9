-- ===== src/Jobs/Pager.antt =====
-- The page's number, read from the URL, and the controls that move it.
use scrapydweb.Base.{
  Bool, ℕ, ◌+◌, ◌-◌, ◌≤◌, ◌≡◌, inl, inr, refl, true, false, not, Option, none, some, or_else, List,
  [], ◌∷◌, ◌++◌, map, Text, text, same, leb, ltb, Obj, get, All, arith, Bool-cases, if◌then◌else◌,
  ◌==◌, same-eq, ◌∙◌, sym,
}
use scrapydweb.Js.View.{Shown, Labelled, All-append, All-when, when, enabled}
use scrapydweb.Js.View
use scrapydweb.Js.Decimal.{show, truthy-show, show-digits, show_injective, is_digit}
use scrapydweb.Jobs.Params.{
  FilterKey, q, status, page, per_page, set_filter, get-set_filter, is_default, key_text, kept,
  is_page,
}

-- `Number` of a text, `none` where the value is no number or below 0; a fraction is left out.
module _ (number : Text → Option ℕ) where
  -- `Number(x) || d`
  abbrev or_number : Option Text → ℕ → ℕ
  or_number none d = d
  or_number (some s) d = elim (number s) [ none ↦ d | some n ↦ if n == 0 then d else n ]

  abbrev max : ℕ → ℕ → ℕ
  max a b = if ltb a b then b else a

  unfoldable pub page_of : Obj Text → ℕ
  unfolding get
  page_of params = max 1 (or_number (get (text "page") params) 1)

  unfoldable pub per_page_of : Obj Text → ℕ
  unfolding get
  per_page_of params = or_number (get (text "per_page") params) 100

pub data Event : Type 0 where
  filter_by : FilterKey → Text → Event

-- the search box and the buttons of the status
unfoldable pub filter_view : Text → List (Shown Event)
filter_view needle =
    View.input needle true (filter_by q)
    ∷ View.button (text "All") true (filter_by status (text "all"))
    ∷ View.button (text "Running") true (filter_by status (text "1"))
    ∷ View.button (text "Finished") true (filter_by status (text "2"))
    ∷ View.button (text "Failed") true (filter_by status (text "failed"))
    ∷ View.button (text "Pending") true (filter_by status (text "0"))
    ∷ []

-- the choice of the page's size, and "Prev" and "Next" when there is more than one page
unfoldable pub pager_view : (at shown_at pages size : ℕ) → List (Shown Event)
pager_view at shown_at pages size =
    View.choice (show size) (map show (25 ∷ 50 ∷ 100 ∷ 200 ∷ 500 ∷ 1000 ∷ [])) true
      (filter_by per_page)
    ∷ when (ltb 1 pages) (
        View.says (text "page " ++ (show shown_at ++ (text " / " ++ show pages)))
        ∷ View.button (text "Prev") (not (leb at 1)) (filter_by page (show (at - 1)))
        ∷ View.button (text "Next") (not (leb pages at)) (filter_by page (show (at + 1)))
        ∷ [])

-- The controls of the page at a URL; `answered` holds the page and the number of pages of an answer.
module _ (number : Text → Option ℕ) (params : Obj Text) where
  abbrev pub page_count : Option (ℕ × ℕ) → ℕ
  page_count none = 1
  page_count (some (at, pages)) = pages

  abbrev shown_page : Option (ℕ × ℕ) → ℕ
  shown_page none = page_of number params
  shown_page (some (at, pages)) = at

  unfoldable pub controls : Option (ℕ × ℕ) → List (Shown Event)
  unfolding filter_view pager_view page_of per_page_of get
  controls answered =
      filter_view (or_else (get (text "q") params) [])
      ++ pager_view (page_of number params) (shown_page answered) (page_count answered)
          (per_page_of number params)

-- Where a control leads: "Prev" to the page before, "Next" to the one behind, and any other control to the
-- first page.
module _ (number : Text → Option ℕ) (params : Obj Text) (pages : ℕ) where
  abbrev pub after : FilterKey → Text → ℕ
  after k v = page_of number (set_filter k v params)

  abbrev Turns : (prev next : Bool) → ℕ → Type 0
  Turns true next n = (n + 1 ≡ page_of number params) × (1 ≤ n)
  Turns false true n = (n ≡ page_of number params + 1) × (n ≤ pages)
  Turns false false n = n ≡ 1

  abbrev pub Lands : Text → Event → Type 0
  Lands label (filter_by k v) =
      Turns (same label (text "Prev")) (same label (text "Next")) (after k v)

show_one : show 1 ≡ text "1"
unfolding show
show_one = refl

digits-All : (s : Text) → All (λ c. is_digit c ≡ true) s → same s (text "all") ≡ false
unfolding same is_digit
digits-All [] d = refl
digits-All (c ∷ s) d = ground (arith, d.0)

-- A number's text is the default only for page 1.
default-one : (n : ℕ) → is_default page (show n) ≡ true → n ≡ 1
unfolding is_default
default-one n h = elim (Bool-cases (same (show n) (text "1"))) [
  | inl e ↦ show_injective n 1 (same-eq (show n) (text "1") e ∙ sym show_one)
  | inr e ↦ ground (arith, h, e, truthy-show n, digits-All (show n) (show-digits n))
]

module _ (number : Text → Option ℕ) (number-show : (n : ℕ) → number (show n) ≡ some n)
    (params : Obj Text) where
  first-page :
      (k : FilterKey) (v : Text)
      → get (text "page") (set_filter k v params) ≡ none
      → page_of number (set_filter k v params) ≡ 1
  unfolding page_of
  first-page k v e = rw e (ground arith)

  at-page :
      (v : Text) (n : ℕ)
      → get (text "page") (set_filter page v params) ≡ some (show n)
      → 1 ≤ n
      → page_of number (set_filter page v params) ≡ n
  unfolding page_of
  at-page v n e h = rw e (ground (arith, number-show n))

  set-page : (n : ℕ) → 1 ≤ n → page_of number (set_filter page (show n) params) ≡ n
  set-page n h = elim (Bool-cases (is_default page (show n))) [
    | inl e ↦ first-page page (show n) (rw (read-back, e) refl) ∙ sym (default-one n e)
    | inr e ↦ at-page (show n) n (rw (read-back, e) refl) h
  ]
    where
      read-back :
          get (text "page") (set_filter page (show n) params)
          ≡ kept (is_default page (show n)) (show n)
      read-back = get-set_filter page (show n) params (text "page") ∙ unfold key_text same in refl

  reset :
      (k : FilterKey) (v : Text)
      → is_page k ≡ false
      → get (text "page") (set_filter k v params) ≡ none
  reset page v e = cc
  reset q v e = get-set_filter q v params (text "page") ∙ unfold key_text same in refl
  reset status v e = get-set_filter status v params (text "page") ∙ unfold key_text same in refl
  reset per_page v e = get-set_filter per_page v params (text "page") ∙ unfold key_text same in refl

  filter-Lands :
      (pages : ℕ)
      → All
          (Labelled (Lands number params pages))
          (filter_view (or_else (get (text "q") params) []))
  unfolding filter_view same
  filter-Lands pages =
      let to_first = λ (v : Text). first-page status v (reset status v refl) in
      (
        λ t. first-page q t (reset q t refl),
        (to_first _, (to_first _, (to_first _, (to_first _, (to_first _, tt))))),
      )

  pager-Lands :
      (shown_at pages size : ℕ)
      → All
          (Labelled (Lands number params pages))
          (pager_view (page_of number params) shown_at pages size)
  unfolding pager_view same
  pager-Lands shown_at pages size = (
    λ t. first-page per_page t (reset per_page t refl),
    All-when (Labelled (Lands number params pages)) (ltb 1 pages) _ λ many. (
      tt,
      (
        enabled (not (leb (page_of number params) 1))
            (λ e. ground (arith, e, set-page (page_of number params - 1))),
        (
          enabled (not (leb pages (page_of number params)))
              (λ e. ground (arith, e, set-page (page_of number params + 1))),
          tt,
        ),
      ),
    ),
  )

-- Where `Number` reads what `String` prints of a number: "Prev", when it is enabled, leads to the page
-- before, which is 1 at least; "Next", when it is enabled, leads to the page behind, which is no page past
-- the last; the search, the status and the page's size lead to page 1.
pub controls-Lands :
    (number : Text → Option ℕ)
    → ((n : ℕ) → number (show n) ≡ some n)
    → (params : Obj Text) (answered : Option (ℕ × ℕ))
    → All
        (Labelled (Lands number params (page_count number params answered)))
        (controls number params answered)
unfolding controls
controls-Lands number reads params answered =
    let pages = page_count number params answered in
    let at = shown_page number params answered in
    let size = per_page_of number params in
    All-append (Labelled (Lands number params pages))
      (filter_view (or_else (get (text "q") params) []))
      (pager_view (page_of number params) at pages size) (filter-Lands number reads params pages)
      (pager-Lands number reads params at pages size)

-- ===== src/Settings/Tabs.antt =====
-- The tab of the settings page, kept in the query of the URL.
use scrapydweb.Base.{
  ◌≡◌, sym, ap, ◌⊎◌, inl, inr, Bool-cases, same-eq, ◌∙◌, Bool, true, false, ◌&&◌, ◌||◌, Option,
  none, some, List, [], ◌∷◌, Text, text, truthy, same, Obj, get, put, del, get-put, get-del,
  includes_text, if◌then◌else◌, arith,
}

abbrev system_tab : Text
system_tab = text "__system"

-- `data?.groups[0]?.id ?? "servers"`
unfoldable pub first_group : List Text → Text
first_group [] = text "servers"
first_group (g ∷ gs) = g

unfoldable pub is_tab : List Text → Text → Bool
unfolding includes_text
is_tab groups t = truthy t && (same t system_tab || includes_text groups t)

unfoldable pub tab_of : List Text → Option Text → Text
unfolding first_group is_tab
tab_of groups none = first_group groups
tab_of groups (some t) = if is_tab groups t then t else first_group groups

unfoldable pub tab : List Text → Obj Text → Text
unfolding tab_of get
tab groups params = tab_of groups (get (text "tab") params)

unfoldable pub set_tab : List Text → Text → Obj Text → Obj Text
unfolding first_group put del
set_tab groups t params =
    if same t (first_group groups) then del (text "tab") params else put (text "tab") t params

get-set_tab :
    (groups : List Text) (t k : Text) (params : Obj Text)
    → get k (set_tab groups t params) ≡ (
        if same (text "tab") k
        then (if same t (first_group groups) then none else some t)
        else get k params)
unfolding set_tab
get-set_tab groups t k params =
    ground (arith, get-put (text "tab") k t params, get-del (text "tab") k params)

-- A tab of the page that is chosen is the tab shown, and every other parameter of the URL stays.
tab-set_tab :
    (groups : List Text) (t : Text) (params : Obj Text) (k : Text)
    → is_tab groups t ≡ true
    → same (text "tab") k ≡ false
    → (tab groups (set_tab groups t params) ≡ t) × (get k (set_tab groups t params) ≡ get k params)
unfolding tab
tab-set_tab groups t params k h e =
    (chosen (Bool-cases (same t (first_group groups))), get-set_tab groups t k params ∙ rw e)
  where
    at_key :
        get (text "tab") (set_tab groups t params)
        ≡ (if same t (first_group groups) then none else some t)
    at_key = get-set_tab groups t (text "tab") params

    chosen :
        ((same t (first_group groups) ≡ true) ⊎ (same t (first_group groups) ≡ false))
        → tab groups (set_tab groups t params) ≡ t
    chosen (inl e) =
        ap (tab_of groups) at_key ∙ unfold tab_of in rw e (sym (same-eq t (first_group groups) e))
    chosen (inr e) = ap (tab_of groups) at_key ∙ unfold tab_of in rw (e, h)

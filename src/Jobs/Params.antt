-- ===== src/Jobs/Params.antt =====
-- `setFilter`: the query parameters of the page.
use scrapydweb.Base.{
  ◌≡◌, refl, Bool, true, false, not, ◌&&◌, ◌||◌, Option, none, some, Text, text, truthy, same,
  same-eq, Obj, get, put, del, get-put, get-del, if◌then◌else◌, arith, Bool-cases, inl, inr,
}

pub data FilterKey : Type 0 where
  q status page per_page : FilterKey

unfoldable pub key_text : FilterKey → Text
key_text q = text "q"
key_text status = text "status"
key_text page = text "page"
key_text per_page = text "per_page"

abbrev pub is_page : FilterKey → Bool
is_page page = true
is_page q = false
is_page status = false
is_page per_page = false

-- a value that is the parameter's default is not kept in the URL
unfoldable pub is_default : FilterKey → Text → Bool
is_default q v = not (truthy v) || same v (text "all")
is_default status v = not (truthy v) || same v (text "all")
is_default page v = not (truthy v) || same v (text "all") || same v (text "1")
is_default per_page v = not (truthy v) || same v (text "all") || same v (text "100")

abbrev pub reset_page : FilterKey → Obj Text → Obj Text
reset_page page params = params
reset_page q params = del (text "page") params
reset_page status params = del (text "page") params
reset_page per_page params = del (text "page") params

-- `next.delete(key)` or `next.set(key, value)`
unfoldable pub write : FilterKey → Text → Obj Text → Obj Text
write k v params = if is_default k v then del (key_text k) params else put (key_text k) v params

unfoldable pub set_filter : FilterKey → Text → Obj Text → Obj Text
set_filter k v params = reset_page k (write k v params)

abbrev pub kept : Bool → Text → Option Text
kept true v = none
kept false v = some v

get-write :
    (k : FilterKey) (v : Text) (params : Obj Text) (j : Text)
    → get j (write k v params)
      ≡ (if same (key_text k) j then kept (is_default k v) v else get j params)
unfolding write
get-write k v params j = elim (Bool-cases (is_default k v)) [
  | inl e ↦ rw e (get-del (key_text k) j params)
  | inr e ↦ rw e (get-put (key_text k) j v params)
]

-- another key than "page" is none
other-page :
    (k : FilterKey) (j : Text)
    → is_page k ≡ false
    → same (text "page") j ≡ true
    → same (key_text k) j ≡ false
unfolding key_text
other-page page j p e = cc
other-page q j p e = rw (← same-eq (text "page") j e) (unfold same in refl)
other-page status j p e = rw (← same-eq (text "page") j e) (unfold same in refl)
other-page per_page j p e = rw (← same-eq (text "page") j e) (unfold same in refl)

-- The parameter that is set reads back as its value, or is absent if that is the default; the page is
-- reset unless it is the parameter that is set; every other parameter is as before.
pub get-set_filter :
    (k : FilterKey) (v : Text) (params : Obj Text) (j : Text)
    → get j (set_filter k v params) ≡ (
        if same (key_text k) j
        then kept (is_default k v) v
        else if not (is_page k) && same (text "page") j
        then none
        else get j params)
unfolding set_filter
get-set_filter page v params j = get-write page v params j
get-set_filter q v params j =
    ground
      (arith, get-del (text "page") j (write q v params), get-write q v params j, other-page q j)
get-set_filter status v params j = ground (
  arith,
  get-del (text "page") j (write status v params),
  get-write status v params j,
  other-page status j,
)
get-set_filter per_page v params j = ground (
  arith,
  get-del (text "page") j (write per_page v params),
  get-write per_page v params j,
  other-page per_page j,
)

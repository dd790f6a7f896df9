-- ===== src/Api/Helpers.antt =====
-- The fetch helpers: which answers become values, which become errors, which send to the login page.
use scrapydweb.Base.{
  ℕ, ◌≡◌, Bool, true, false, not, ◌&&◌, ◌||◌, Option, none, some, Text, text, same, leb, ◌==◌,
  if◌then◌else◌, arith, ◌⊎◌, ◌↔◌, ◌≤◌,
}
use scrapydweb.Js.Strings.{starts_with}

pub data Helper : Type 0 where
  get_json post_json post_json_body put_json delete_json post_form : Helper

-- What `await fetch` and `await res.json()` give: `body` is `none` when the body is no JSON.
pub data Answer (A : Type 0) : Type 0 where
  unreachable : Answer A
  answer : (status : ℕ) → (body : Option A) → Answer A

pub data Failure : Type 0 where
  network bad_json : Failure
  http : ℕ → Failure

-- `to_login` has set `window.location.href`, and its promise never settles.
pub data Outcome (A : Type 0) : Type 0 where
  value : A → Outcome A
  to_login : Outcome A
  failed : Failure → Outcome A

-- `res.ok`
unfoldable pub is_ok : ℕ → Bool
is_ok status = leb 200 status && leb status 299

-- `redirectToLogin`
unfoldable pub redirects : ℕ → Text → Text → Bool
redirects status url path =
    (status == 401) && not (starts_with (text "/api/auth") url) && not (same path (text "/login"))

unfoldable pub post_json_body_lets : ℕ → Bool
post_json_body_lets s = (s == 400) || (s == 401) || (s == 403)

unfoldable pub put_json_lets : ℕ → Bool
put_json_lets s = s == 400

unfoldable pub delete_json_lets : ℕ → Bool
delete_json_lets s = (s == 400) || (s == 404)

-- The statuses that can come with a value.
abbrev pub IsAccepted : ℕ → Type 0
IsAccepted s = ((200 ≤ s) × (s ≤ 299)) ⊎ (s ≡ 400) ⊎ (s ≡ 401) ⊎ (s ≡ 403) ⊎ (s ≡ 404)

abbrev pub follows_session : Helper → Bool
follows_session get_json = true
follows_session post_json = true
follows_session delete_json = true
follows_session _ = false

-- a 401 for a URL outside /api/auth, away from the login page
abbrev pub IsExpired : ℕ → Text → Text → Type 0
IsExpired s url path =
    (s ≡ 401) × (starts_with (text "/api/auth") url ≡ false) × (same path (text "/login") ≡ false)

redirects_iff : (s : ℕ) (url path : Text) → (redirects s url path ≡ true) ↔ IsExpired s url path
unfolding redirects
redirects_iff s url path =
    (λ e. (ground arith, ground arith, ground arith), λ h. rw (h.0, h.1, h.2))

module _ {A : Type 0} where
  -- `return res.json()`
  abbrev parse : Option A → Outcome A
  parse none = failed bad_json
  parse (some a) = value a

  -- `if (!ok) throw …`
  abbrev check : Bool → ℕ → Outcome A → Outcome A
  check true status k = k
  check false status k = failed (http status)

  -- `const js = await res.json()`, and the status after it
  abbrev parse_then_check : (ℕ → Bool) → ℕ → Option A → Outcome A
  parse_then_check lets status none = failed bad_json
  parse_then_check lets status (some a) = check (is_ok status || lets status) status (value a)

  -- A helper on the answer to its request, on page `path`.
  unfoldable pub settle : Helper → Text → Text → Answer A → Outcome A
  unfolding is_ok
  settle h path url unreachable = failed network
  settle get_json path url (answer status body) =
      if redirects status url path then to_login else check (is_ok status) status (parse body)
  settle post_json path url (answer status body) =
      if redirects status url path then to_login else check (is_ok status) status (parse body)
  settle post_json_body path url (answer status body) =
      parse_then_check post_json_body_lets status body
  settle put_json path url (answer status body) = parse_then_check put_json_lets status body
  settle delete_json path url (answer status body) =
      if redirects status url path then to_login else parse_then_check delete_json_lets status body
  settle post_form path url (answer status body) = check (is_ok status) status (parse body)

  -- A helper that resolves to a value has read it from the body, and the status was a success or
  -- one of 400, 401, 403 and 404.
  pub settle-value :
      (h : Helper) (path url : Text) (s : ℕ) (body : Option A) (a : A)
      → settle h path url (answer s body) ≡ value a
      → (body ≡ some a) × IsAccepted s
  unfolding settle post_json_body_lets put_json_lets delete_json_lets
  settle-value get_json path url s body a e = ground arith
  settle-value post_form path url s body a e = ground arith
  settle-value _ path url s body a e = ground arith

  to_login_only :
      (h : Helper) (path url : Text) (s : ℕ) (body : Option A)
      → settle h path url (answer s body) ≡ to_login
      → (follows_session h ≡ true) × (redirects s url path ≡ true)
  unfolding settle
  to_login_only get_json path url s body e = ground arith
  to_login_only _ path url s body e = ground arith

  to_login_if :
      (h : Helper) (path url : Text) (s : ℕ) (body : Option A)
      → follows_session h ≡ true
      → redirects s url path ≡ true
      → settle h path url (answer s body) ≡ to_login
  unfolding settle
  to_login_if get_json path url s body f e = rw e
  to_login_if post_json path url s body f e = rw e
  to_login_if delete_json path url s body f e = rw e
  to_login_if _ path url s body f e = cc

  -- The page is sent to the login form exactly by the helpers that send no body, on a 401 for a URL
  -- outside /api/auth, away from the login page.
  pub settle-to_login :
      (h : Helper) (path url : Text) (s : ℕ) (body : Option A)
      → (settle h path url (answer s body) ≡ to_login)
        ↔ ((follows_session h ≡ true) × IsExpired s url path)
  settle-to_login h path url s body = (
    λ e. let (f, r) = to_login_only h path url s body e in (f, (redirects_iff s url path).0 r),
    λ p. to_login_if h path url s body p.0 ((redirects_iff s url path).1 p.1),
  )

  -- A success with a JSON body always resolves to it, whatever the helper and the page.
  settle-ok :
      (h : Helper) (path url : Text) (s : ℕ) (a : A)
      → 200 ≤ s
      → s ≤ 299
      → settle h path url (answer s (some a)) ≡ value a
  unfolding settle redirects
  settle-ok get_json path url s a p q = ground arith
  settle-ok _ path url s a p q = ground arith

-- ===== src/Auth/Login.antt =====
-- `LoginPage`: the form, a submission up to its `await`, and what the answer does.
pub mod View
use scrapydweb.Base.{
  ◌≡◌, refl, Bool, true, false, not, ◌&&◌, Option, none, some, or_else, List, [], ◌∷◌, Text, text,
  truthy, same, if◌then◌else◌, arith, length, ap, Bool-cases, inl, inr,
}
use scrapydweb.Api.Calls.{Call, login, setup}

pub record LoginForm : Type 0 where
  pub username : Text
  pub password : Text
  pub confirm : Text
  pub error : Text
  pub busy : Bool

abbrev pub blank_login : LoginForm
blank_login = record { username = []; password = []; confirm = []; error = []; busy = false }

-- the answer that `me` holds, once there is one
pub record AuthMe : Type 0 where
  pub authenticated : Bool
  pub setup_required : Bool

unfoldable pub setup_mode : Option AuthMe → Bool
setup_mode none = false
setup_mode (some me) = me.setup_required

-- the button, and with it the form, when it is not disabled
unfoldable pub can_submit : LoginForm → Bool
can_submit s = not s.busy && truthy s.username && truthy s.password

-- `password !== confirm` in setup mode
unfoldable pub mismatched : Bool → LoginForm → Bool
mismatched setting_up s = setting_up && not (same s.password s.confirm)

-- `submit` up to the `await`: the state, and the request if there is one
unfoldable pub submit : Bool → LoginForm → LoginForm × Option Call
unfolding mismatched
submit setting_up s =
    if mismatched setting_up s
    then (record s { error = text "Passwords do not match" }, none)
    else (
      record s { error = []; busy = true },
      some (if setting_up then setup s.username s.password else login s.username s.password),
    )

-- the backend's answer, or an exception
pub data Reply : Type 0 where
  answered : (status : Text) → (message : Option Text) → Reply
  thrown : (err : Text) → Reply

pub data Effect : Type 0 where
  refresh_me go_home : Effect

unfoldable pub after_submit : Reply → LoginForm → LoginForm × List Effect
unfolding same
after_submit (answered status message) s =
    if same status (text "ok")
    then (record s { busy = false }, refresh_me ∷ go_home ∷ [])
    else (record s { error = or_else message (text "Authentication failed"); busy = false }, [])
after_submit (thrown err) s = (record s { error = err; busy = false }, [])

-- The page with the requests that have no answer yet.
pub record LoginPage : Type 0 where
  pub form : LoginForm
  pub waiting : List Call

abbrev pub send : Option Call → List Call → List Call
send none cs = cs
send (some c) cs = c ∷ cs

abbrev pub sent : Bool → LoginPage → LoginPage
sent setting_up p = record {
  form = (submit setting_up p.form).0;
  waiting = send (submit setting_up p.form).1 p.waiting;
}

abbrev pub received : Reply → List Call → LoginPage → LoginPage
received r rest p = record { form = (after_submit r p.form).0; waiting = rest }

abbrev pub retyped : Text → Text → Text → LoginPage → LoginPage
retyped u w c p = record p { form = record p.form { username = u; password = w; confirm = c } }

-- What happens to the page: typing, a submission that the button allows, an answer to a request.
pub data Happens : LoginPage → LoginPage → Type 0 where
  typed : (p : LoginPage) (u w c : Text) → Happens p (retyped u w c p)
  submitted :
      (p : LoginPage) (setting_up : Bool) → can_submit p.form ≡ true → Happens p (sent setting_up p)
  replied :
      (p : LoginPage) (c : Call) (rest : List Call) (r : Reply)
      → p.waiting ≡ c ∷ rest
      → Happens p (received r rest p)

pub data Steps : LoginPage → LoginPage → Type 0 where
  idle : (p : LoginPage) → Steps p p
  step : {p q r : LoginPage} → Steps p q → Happens q r → Steps p r

-- One request waits while the page is busy, and none otherwise.
abbrev pub IsSynced : LoginPage → Type 0
IsSynced p = length p.waiting ≡ (if p.form.busy then 1 else 0)

submit-IsSynced :
    (setting_up : Bool) (p : LoginPage)
    → can_submit p.form ≡ true
    → IsSynced p
    → IsSynced (sent setting_up p)
unfolding can_submit submit
submit-IsSynced setting_up p h i = elim (Bool-cases (mismatched setting_up p.form)) [
  | inl e ↦ rw e i
  | inr e ↦ rw e (ground (arith, h, i))
]

after_submit-idle : (r : Reply) (s : LoginForm) → (after_submit r s).0.busy ≡ false
unfolding after_submit
after_submit-idle (answered status m) s = ground arith
after_submit-idle (thrown e) s = refl

Happens-IsSynced : {p q : LoginPage} → Happens p q → IsSynced p → IsSynced q
Happens-IsSynced (typed p u w c) i = i
Happens-IsSynced (submitted p b h) i = submit-IsSynced b p h i
Happens-IsSynced (replied p c rest r e) i =
    let busy = after_submit-idle r p.form in let n = ap length e in ground (arith, i, n, busy)

-- On every run of the login page at most one request waits for its answer, and the page is busy
-- exactly while one does, if that is so at the start; so no answer leaves the page locked.
Steps-IsSynced : {p q : LoginPage} → Steps p q → IsSynced p → IsSynced q
Steps-IsSynced (idle p) i = i
Steps-IsSynced (step s h) i = Happens-IsSynced h (Steps-IsSynced s i)

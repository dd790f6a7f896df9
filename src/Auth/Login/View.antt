-- ===== src/Auth/Login/View.antt =====
-- What `LoginPage` shows.
use scrapydweb.Base.{Bool, true, List, [], ◌∷◌, ◌++◌, Text, text, truthy, if◌then◌else◌}
use scrapydweb.Js.View.{Shown, when}
use scrapydweb.Js.View
use scrapydweb.Auth.Login.{LoginForm, can_submit}

pub data Event : Type 0 where
  type_username type_password type_confirm : Text → Event
  submit : Event

unfoldable pub handle : Event → LoginForm → LoginForm
handle (type_username t) s = record s { username = t }
handle (type_password t) s = record s { password = t }
handle (type_confirm t) s = record s { confirm = t }
handle submit s = s

abbrev setup_field : LoginForm → List (Shown Event)
setup_field s =
    View.says (text "At least 8 characters.")
    ∷ View.says (text "Confirm password")
    ∷ View.input s.confirm true type_confirm
    ∷ []

unfoldable pub login_view : (setting_up : Bool) → LoginForm → List (Shown Event)
unfolding can_submit
login_view setting_up s =
    View.says (if setting_up then text "Create admin account" else text "Sign in to ScrapydWeb")
    ∷ (when setting_up (
          View.says (text "First run — choose the credentials that will protect this instance.")
          ∷ [])
        ++ (View.says (text "Username")
            ∷ View.input s.username true type_username
            ∷ View.says (text "Password")
            ∷ View.input s.password true type_password
            ∷ (when setting_up (setup_field s)
                ++ (when (truthy s.error) (View.says s.error ∷ [])
                    ++ (View.button
                          (if s.busy
                            then text "…"
                            else if setting_up
                            then text "Create account"
                            else text "Sign in")
                          (can_submit s) submit
                        ∷ [])))))

-- ===== src/Frame/UserMenu.antt =====
-- `UserMenu` of frontend/src/components/user-menu.tsx, with the dialog behind it in Frame/Password.
use scrapydweb.Base.{true, Option, none, some, or_else, List, [], ◌∷◌, Text, text}
use scrapydweb.Js.View.{Shown}
use scrapydweb.Js.View
use scrapydweb.Api.Calls.{Call}
use scrapydweb.Frame.Password.{PasswordForm, Effect, log_out}

pub data MenuEvent : Type 0 where
  change_password log_out_clicked : MenuEvent

-- the handlers: the dialog that is opened, and the call with what follows its answer
unfoldable pub choose : MenuEvent → PasswordForm → PasswordForm × Option (Call × List Effect)
unfolding log_out
choose change_password s = (record s { is_open = true }, none)
choose log_out_clicked s = (s, some log_out)

-- the menu, for the name of who is logged in
unfoldable pub menu_view : Option Text → List (Shown MenuEvent)
menu_view username =
    View.says (or_else username (text "…"))
    ∷ View.button (text "Change password") true change_password
    ∷ View.button (text "Log out") true log_out_clicked
    ∷ []

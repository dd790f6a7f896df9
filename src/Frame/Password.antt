-- ===== src/Frame/Password.antt =====
-- `UserMenu` and `ChangePasswordDialog`: the log-out and a change of the password.
use scrapydweb.Base.{
  ◌≡◌, Bool, true, false, not, ◌||◌, Option, none, some, or_else, List, [], ◌∷◌, ◌++◌, Text, text,
  truthy, same, if◌then◌else◌, arith, All, same-eq, Bool-cases, inl, inr,
}
use scrapydweb.Js.View.{Shown, when, Raises, enabled, Raises-append, Raises-when}
use scrapydweb.Js.View
use scrapydweb.Api.Calls.{Call, change_password, logout}

-- the states of the dialog, and whether it is open
pub record PasswordForm : Type 0 where
  pub current : Text
  pub next : Text
  pub confirm : Text
  pub error : Text
  pub busy : Bool
  pub is_open : Bool

pub data Event : Type 0 where
  set_current set_next set_confirm : Text → Event
  submit : Event
  open_change : Bool → Event

pub data Effect : Type 0 where
  toast_success : Text → Effect
  refresh_me : Effect
  to_login : Effect

-- `logout`: the call, and what follows its answer
unfoldable pub log_out : Call × List Effect
log_out = (logout, refresh_me ∷ to_login ∷ [])

-- `submit` up to its `await`: the state and the request
unfoldable pub send : PasswordForm → PasswordForm × Option Call
unfolding same
send s =
    if same s.next s.confirm
    then (record s { error = []; busy = true }, some (change_password s.current s.next))
    else (record s { error = text "Passwords do not match" }, none)

unfoldable pub handle : Event → PasswordForm → PasswordForm × Option Call
unfolding send
handle (set_current t) s = (record s { current = t }, none)
handle (set_next t) s = (record s { next = t }, none)
handle (set_confirm t) s = (record s { confirm = t }, none)
handle submit s = send s
handle (open_change b) s = (record s { is_open = b }, none)

-- the answer, or an exception, which is not caught
pub data Reply : Type 0 where
  answered : (status : Text) → (message : Option Text) → Reply
  thrown : Reply

unfoldable pub after_reply : Reply → PasswordForm → PasswordForm × List Effect
unfolding same
after_reply (answered status message) s =
    if same status (text "ok")
    then (
      record s { current = []; next = []; confirm = []; busy = false; is_open = false },
      toast_success (text "Password changed") ∷ [],
    )
    else (record s { error = or_else message (text "Failed"); busy = false }, [])
after_reply thrown s = (record s { busy = false }, [])

-- what the dialog shows; Enter submits the form only when the button is enabled
unfoldable pub dialog_view : PasswordForm → List (Shown Event)
dialog_view s =
    View.says (text "Change password")
    ∷ View.says (text "Current password")
    ∷ View.input s.current true set_current
    ∷ View.says (text "New password")
    ∷ View.input s.next true set_next
    ∷ View.says (text "Confirm new password")
    ∷ View.input s.confirm true set_confirm
    ∷ (when (truthy s.error) (View.says s.error ∷ [])
        ++ View.button (if s.busy then text "…" else text "Change password")
            (not (s.busy || not (truthy s.current) || not (truthy s.next))) submit
          ∷ [])

-- What an event of the dialog sends: nothing, or, while nothing else is sent, the passwords typed,
-- none of them empty and the new one typed twice.
pub data IsSent (s : PasswordForm) : Option Call → Type 0 where
  nothing : IsSent s none
  change :
      s.busy ≡ false
      → truthy s.current ≡ true
      → truthy s.next ≡ true
      → s.next ≡ s.confirm
      → IsSent s (some (change_password s.current s.next))

abbrev pub Sends : PasswordForm → Event → Type 0
Sends s e = IsSent s (handle e s).1

submit-Sends :
    (s : PasswordForm)
    → not (s.busy || not (truthy s.current) || not (truthy s.next)) ≡ true
    → Sends s submit
unfolding handle
submit-Sends s h = elim (Bool-cases (same s.next s.confirm)) [
  | inl e ↦ rw e (
      change (ground (arith, h)) (ground (arith, h)) (ground (arith, h))
        (same-eq s.next s.confirm e))
  | inr e ↦ rw e nothing
]

-- Whatever the dialog of the password offers sends nothing or, while no change is being made, the
-- typed passwords, when neither is empty and the new one stands there twice.
pub dialog_view-Sends : (s : PasswordForm) → All (Raises (Sends s)) (dialog_view s)
unfolding dialog_view handle
dialog_view-Sends s =
    let errors = Raises-when (Sends s) (truthy s.error) (View.says s.error ∷ []) (λ e. (tt, tt)) in
    let button =
      enabled (not (s.busy || not (truthy s.current) || not (truthy s.next))) (submit-Sends s) in
    let rest =
      Raises-append (Sends s) (when (truthy s.error) (View.says s.error ∷ [])) _ errors
        (button, tt) in
    (tt, (tt, (λ t. nothing, (tt, (λ t. nothing, (tt, (λ t. nothing, rest)))))))

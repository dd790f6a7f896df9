-- ===== src/Auth/Tokens/View.antt =====
-- What `TokensPage` shows, and what the key Enter does in its field.
use scrapydweb.Base.{
  ℕ, Bool, true, not, ◌&&◌, Option, none, some, List, [], ◌∷◌, ◌++◌, Text, text, truthy, length,
  ◌==◌, if◌then◌else◌,
}
use scrapydweb.Js.Decimal.{show}
use scrapydweb.Js.View.{Shown, when, when_some, concat_map}
use scrapydweb.Js.View
use scrapydweb.Auth.Tokens.{TokensPage, can_create, shown_command_token}

-- `ApiToken`, without the number of its user
pub record Token : Type 0 where
  pub id : ℕ
  pub name : Text
  pub prefix : Text
  pub created_at : Option Text
  pub last_used_at : Option Text

pub data Event : Type 0 where
  type_name : Text → Event
  create copy : Event
  revoke : Token → Event

-- a key in the field: Enter creates a token, also while one is being created
unfoldable pub on_key : (is_enter : Bool) → TokensPage → Option Event
unfolding can_create
on_key is_enter s = if is_enter && can_create s then some create else none

module _ (fmt_date_time : Option Text → Text) where
  abbrev used : Option Text → Text
  used none = text " · never used"
  used (some []) = text " · never used"
  used (some (c ∷ t)) = text " · last used " ++ fmt_date_time (some (c ∷ t))

  unfoldable pub token_row : Token → List (Shown Event)
  token_row t =
      View.says t.name
      ∷ View.says t.prefix
      ∷ View.says (text "created " ++ (fmt_date_time t.created_at ++ used t.last_used_at))
      ∷ View.button (text "Revoke") true (revoke t)
      ∷ []

  abbrev fresh_view : Bool → Text → List (Shown Event)
  fresh_view copied t = when (truthy t) (
      View.says (text "Copy it now — it won't be shown again.")
      ∷ View.says t
      ∷ View.button (if copied then text "Copied" else text "Copy") true copy
      ∷ [])

  unfoldable pub tokens_view : Text → Bool → TokensPage → List Token → List (Shown Event)
  unfolding can_create token_row
  tokens_view origin creating s tokens =
      View.says (text "API Tokens")
      ∷ View.says (show (length tokens) ++ text " active")
      ∷ View.says (text "Generate a token")
      ∷ View.input s.name true type_name
      ∷ View.button (text "Generate") (can_create s && not creating) create
      ∷ (when_some s.fresh (fresh_view s.copied)
          ++ (View.says (text "Use it in curl:")
              ∷ View.says (
                  text "curl -H 'Authorization: Bearer "
                  ++ (shown_command_token s
                      ++ (text "' \\" ++ 10 ∷ (text "  '" ++ (origin ++ text "/api/groups'")))))
              ∷ View.says (text "Active tokens")
              ∷ (when (length tokens == 0) (View.says (text "No tokens yet.") ∷ [])
                  ++ concat_map token_row tokens)))

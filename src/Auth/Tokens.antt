-- ===== src/Auth/Tokens.antt =====
-- `TokensPage`: a new token, which is shown once, its copy, and a token's removal.
pub mod View
use scrapydweb.Base.{
  ℕ, ◌≡◌, ◌⊎◌, refl, Bool, true, false, ◌&&◌, Option, none, some, or_text, List, [], ◌∷◌, ◌++◌,
  Text, text, truthy, same, if◌then◌else◌, Bool-cases, inl, inr,
}
use scrapydweb.Js.Strings.{trim}
use scrapydweb.Api.Calls.{Call, create_token, delete_token}

-- the page's state, and the last text that it wrote to the clipboard
pub record TokensPage : Type 0 where
  pub name : Text
  pub fresh : Option Text
  pub copied : Bool
  pub clipboard : Option Text

pub data Effect : Type 0 where
  refresh_tokens : Effect
  success failure : Text → Effect

-- whether the key Enter and, if no creation is pending, the button create a token
unfoldable pub can_create : TokensPage → Bool
unfolding trim
can_create s = truthy (trim s.name)

unfoldable pub create_call : TokensPage → Call
unfolding trim
create_call s = create_token (trim s.name)

pub data Reply : Type 0 where
  answered : (status : Text) → (plaintext message : Option Text) → Reply
  thrown : (message : Text) → Reply

abbrev pub given : Option Text → Text
given none = []
given (some t) = t

unfoldable pub after_create : Reply → TokensPage → TokensPage × List Effect
unfolding same
after_create (answered status plaintext message) s =
    if same status (text "ok") && truthy (given plaintext)
    then (record s { fresh = plaintext; name = []; copied = false }, refresh_tokens ∷ [])
    else (s, failure (or_text (given message) (text "Create failed")) ∷ [])
after_create (thrown m) s = (s, failure (text "Create failed: " ++ m) ∷ [])

unfoldable pub copy : TokensPage → TokensPage × List Effect
copy s =
    if truthy (given s.fresh)
    then (record s { clipboard = s.fresh; copied = true }, success (text "Token copied") ∷ [])
    else (s, [])

-- a token is deleted when the question is answered with yes
unfoldable pub remove : Bool → ℕ → Option Call × List Effect
remove true id = (some (delete_token id), refresh_tokens ∷ [])
remove false id = (none, [])

abbrev pub shown_command_token : TokensPage → Text
shown_command_token s = elim s.fresh [ none ↦ text "sdw_…" | some t ↦ t ]

-- What happens to the page.
pub data Happens : TokensPage → TokensPage → Type 0 where
  typed : (s : TokensPage) (n : Text) → Happens s (record s { name = n })
  created : (s : TokensPage) (r : Reply) → Happens s (after_create r s).0
  copies : (s : TokensPage) → Happens s (copy s).0

pub data Steps : TokensPage → TokensPage → Type 0 where
  idle : (s : TokensPage) → Steps s s
  step : {s t u : TokensPage} → Steps s t → Happens t u → Steps s u

-- The page does not say "Copied", or the token that it shows is what it copied.
abbrev pub IsHonest : TokensPage → Type 0
IsHonest s = (s.copied ≡ false) ⊎ (s.fresh ≡ s.clipboard)

after_create-IsHonest : (r : Reply) (s : TokensPage) → IsHonest s → IsHonest (after_create r s).0
unfolding after_create
after_create-IsHonest (answered status plaintext m) s h =
    elim (Bool-cases (same status (text "ok") && truthy (given plaintext))) [
      | inl e ↦ rw e (inl refl)
      | inr e ↦ rw e h
    ]
after_create-IsHonest (thrown m) s h = h

copy-IsHonest : (s : TokensPage) → IsHonest s → IsHonest (copy s).0
unfolding copy
copy-IsHonest s h = elim (Bool-cases (truthy (given s.fresh))) [
  | inl e ↦ rw e (inr refl)
  | inr e ↦ rw e h
]

Happens-IsHonest : {s t : TokensPage} → Happens s t → IsHonest s → IsHonest t
Happens-IsHonest (typed s n) h = h
Happens-IsHonest (created s r) h = after_create-IsHonest r s h
Happens-IsHonest (copies s) h = copy-IsHonest s h

-- On every run of the tokens page, while the button says "Copied" the text that the page wrote last
-- to the clipboard is the token it shows, if that is so at the start: a newer token takes the word back.
pub Steps-IsHonest : {s t : TokensPage} → Steps s t → IsHonest s → IsHonest t
Steps-IsHonest (idle s) h = h
Steps-IsHonest (step ss e) h = Happens-IsHonest e (Steps-IsHonest ss h)

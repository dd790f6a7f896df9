-- ===== src/Examples/Access.antt =====
-- The login and the tokens page.
use scrapydweb.Base.{refl, false, none, some, text, inl}
use scrapydweb.Auth.Tokens
use scrapydweb.Auth.Tokens.{TokensPage, IsHonest, after_create, copy, Steps-IsHonest}

abbrev empty : TokensPage
empty = record { name = text "ci"; fresh = none; copied = false; clipboard = none }

abbrev issued : TokensPage
issued = (after_create (Tokens.answered (text "ok") (some (text "sdw_1")) none) empty).0

abbrev copied : TokensPage
copied = (copy issued).0

a_token : Tokens.Steps empty copied
a_token =
    Tokens.step
      (Tokens.step (Tokens.idle empty)
        (Tokens.created empty (Tokens.answered (text "ok") (some (text "sdw_1")) none)))
      (Tokens.copies issued)

Steps-IsHonest_example : IsHonest copied
Steps-IsHonest_example = Steps-IsHonest a_token (inl refl)

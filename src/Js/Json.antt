-- ===== src/Js/Json.antt =====
-- JSON values and `JSON.stringify`. The numbers that the modelled code prints are natural.
use scrapydweb.Base.{
  ℕ, zero, suc, ◌+◌, ◌/◌, ◌%◌, ◌≡◌, refl, Bool, true, false, ◌&&◌, ◌||◌, [], ◌∷◌, ◌++◌, Text, text,
  ltb, ◌==◌, if◌then◌else◌,
}
use scrapydweb.Js.Decimal.{show}
use scrapydweb.Js.Uri.{is_high, is_low}

mutual
  pub data Json : Type 0 where
    null : Json
    bool : Bool → Json
    num : ℕ → Json
    str : Text → Json
    arr : Items → Json
    obj : Fields → Json

  pub data Items : Type 0 where
    nil : Items
    cons : Json → Items → Items

  pub data Fields : Type 0 where
    end : Fields
    field : Text → Json → Fields → Fields

unfoldable pub hex_lower : ℕ → ℕ
hex_lower d = if ltb d 10 then b'0' + d else 87 + d

-- `\uXXXX`
unfoldable pub unicode_escape : ℕ → Text
unfolding hex_lower
unicode_escape c =
    92
    ∷ 117
    ∷ hex_lower (c / 4096 % 16)
    ∷ hex_lower (c / 256 % 16)
    ∷ hex_lower (c / 16 % 16)
    ∷ hex_lower (c % 16)
    ∷ []

unfoldable pub escape_unit : ℕ → Text
unfolding unicode_escape is_high is_low
escape_unit c =
    if c == 34
    then 92 ∷ 34 ∷ []
    else if c == 92
    then 92 ∷ 92 ∷ []
    else if c == 8
    then 92 ∷ 98 ∷ []
    else if c == 12
    then 92 ∷ 102 ∷ []
    else if c == 10
    then 92 ∷ 110 ∷ []
    else if c == 13
    then 92 ∷ 114 ∷ []
    else if c == 9
    then 92 ∷ 116 ∷ []
    else if ltb c 32 || is_high c || is_low c
    then unicode_escape c
    else c ∷ []

-- a surrogate pair stays, a lone surrogate is escaped
unfoldable pub escape : Text → Text
unfolding escape_unit
escape [] = []
escape (c ∷ []) = escape_unit c
escape (c ∷ d ∷ s) =
    let pair = c ∷ d ∷ escape s in
    let one = escape_unit c ++ escape (d ∷ s) in if is_high c && is_low d then pair else one

unfoldable pub quote : Text → Text
unfolding escape
quote s = 34 ∷ (escape s ++ text "\"")

-- `JSON.stringify(v)`
unfoldable mutual
  unfolding quote

  pub stringify : Json → Text
  stringify null = text "null"
  stringify (bool true) = text "true"
  stringify (bool false) = text "false"
  stringify (num n) = show n
  stringify (str s) = quote s
  stringify (arr nil) = text "[]"
  stringify (arr (cons v vs)) = text "[" ++ (stringify v ++ stringify_items vs)
  stringify (obj end) = text "{}"
  stringify (obj (field k v fs)) =
      text "{" ++ (quote k ++ (text ":" ++ (stringify v ++ stringify_fields fs)))

  pub stringify_items : Items → Text
  stringify_items nil = text "]"
  stringify_items (cons v vs) = text "," ++ (stringify v ++ stringify_items vs)

  pub stringify_fields : Fields → Text
  stringify_fields end = text "}"
  stringify_fields (field k v fs) =
      text "," ++ (quote k ++ (text ":" ++ (stringify v ++ stringify_fields fs)))

unfoldable pub newline : ℕ → Text
newline zero = text "\n"
newline (suc n) = newline n ++ text "  "

-- `JSON.stringify(v, null, 2)`, `n` levels deep
unfoldable mutual
  unfolding quote newline

  pub pretty : Json → ℕ → Text
  pretty null n = text "null"
  pretty (bool true) n = text "true"
  pretty (bool false) n = text "false"
  pretty (num k) n = show k
  pretty (str s) n = quote s
  pretty (arr nil) n = text "[]"
  pretty (arr (cons v vs)) n =
      text "[" ++ (newline (suc n) ++ (pretty v (suc n) ++ pretty_items vs n))
  pretty (obj end) n = text "{}"
  pretty (obj (field k v fs)) n =
      text "{"
      ++ (newline (suc n) ++ (quote k ++ (text ": " ++ (pretty v (suc n) ++ pretty_fields fs n))))

  pub pretty_items : Items → ℕ → Text
  pretty_items nil n = newline n ++ text "]"
  pretty_items (cons v vs) n =
      text "," ++ (newline (suc n) ++ (pretty v (suc n) ++ pretty_items vs n))

  pub pretty_fields : Fields → ℕ → Text
  pretty_fields end n = newline n ++ text "}"
  pretty_fields (field k v fs) n =
      text ","
      ++ (newline (suc n) ++ (quote k ++ (text ": " ++ (pretty v (suc n) ++ pretty_fields fs n))))

stringify_test :
    stringify (obj (field (text "a\"") (arr (cons (num 10) (cons null nil))) end))
    ≡ text "{\"a\\\"\":[10,null]}"
unfolding stringify quote show
stringify_test = refl

pretty_test :
    pretty (obj (field (text "a") (arr (cons (num 1) nil)) end)) 0
    ≡ text "{\n  \"a\": [\n    1\n  ]\n}"
unfolding pretty quote show newline
pretty_test = refl

-- ===== src/Settings/Servers.antt =====
-- `ServersEditor` of the settings page: the rows and what its inputs write.
use scrapydweb.Base.{
  ℕ, zero, suc, ◌≡◌, refl, ap, ◌∙◌, Bool, false, Option, none, some, List, [], ◌∷◌, ◌++◌, Text,
  text, or_text, same, map_at, remove_at, get_elem?, length, ◌==◌, if◌then◌else◌, arith,
}
use scrapydweb.Settings.Draft.{ServerRow}

abbrev pub secret : Text
secret = text "__secret__"

-- what one input changes of its row
pub data Patch : Type 0 where
  host port username password group : Text → Patch

-- The port that the text of a number input stands for; the parse of other texts is a parameter.
module _ (parse_int : Text → ℕ) where
  unfoldable pub patch : Patch → ServerRow → ServerRow
  patch (host s) r = record r { host = s }
  patch (port s) r = record r { port = parse_int (or_text s (text "6800")) }
  patch (username s) r = record r { username = s }
  patch (password s) r = record r { password = or_text s secret }
  patch (group s) r = record r { group = s }

  unfoldable pub update : ℕ → Patch → List ServerRow → List ServerRow
  unfolding patch
  update i p rows = map_at i (patch p) rows

unfoldable pub add_server : List ServerRow → List ServerRow
add_server rows =
    rows
    ++ record { host = []; port = 6800; username = []; password = []; group = []; public_url = [] }
      ∷ []

unfoldable pub remove_server : ℕ → List ServerRow → List ServerRow
remove_server i rows = remove_at i rows

-- the value of the password's input
unfoldable pub shown_password : Text → Text
shown_password p = if same p secret then [] else p

-- What the reader of a row gets in the place `i`.
abbrev pub changed {ℓ} : {A : Type ℓ} → Bool → (A → A) → Option A → Option A
changed b f none = none
changed b f (some a) = some (if b then f a else a)

changed-false {ℓ} : {A : Type ℓ} (o : Option A) (f : A → A) → o ≡ changed false f o
changed-false none f = refl
changed-false (some a) f = refl

suc== : (i j : ℕ) → (i == j) ≡ (suc i == suc j)
suc== i j = ground arith

zero== : (j : ℕ) → false ≡ (zero == suc j)
zero== j = ground arith

get_elem?-map_at {ℓ} :
    {A : Type ℓ} (i j : ℕ) (f : A → A) (xs : List A)
    → get_elem? (map_at i f xs) j ≡ changed (i == j) f (get_elem? xs j)
get_elem?-map_at i j f [] = refl
get_elem?-map_at zero zero f (x ∷ xs) = refl
get_elem?-map_at zero (suc j) f (x ∷ xs) =
    changed-false (get_elem? xs j) f ∙ ap (λ b. changed b f (get_elem? xs j)) (zero== j)
get_elem?-map_at (suc i) zero f (x ∷ xs) = ground arith
get_elem?-map_at (suc i) (suc j) f (x ∷ xs) =
    get_elem?-map_at i j f xs ∙ ap (λ b. changed b f (get_elem? xs j)) (suc== i j)

length-map_at {ℓ} :
    {A : Type ℓ} (i : ℕ) (f : A → A) (xs : List A) → length (map_at i f xs) ≡ length xs
length-map_at i f [] = refl
length-map_at zero f (x ∷ xs) = refl
length-map_at (suc i) f (x ∷ xs) = omega (arith, length-map_at i f xs)

remove_at-append {ℓ} :
    {A : Type ℓ} (xs : List A) (x : A) → remove_at (length xs) (xs ++ x ∷ []) ≡ xs
remove_at-append [] x = refl
remove_at-append (y ∷ xs) x = rw (remove_at-append xs x)

module _ (parse_int : Text → ℕ) where
  -- An input changes the row that it stands in and no other row, and no row comes or goes.
  pub get_elem?-update :
      (i j : ℕ) (p : Patch) (rows : List ServerRow)
      → (get_elem? (update parse_int i p rows) j
          ≡ changed (i == j) (patch parse_int p) (get_elem? rows j))
        × (length (update parse_int i p rows) ≡ length rows)
  unfolding update
  get_elem?-update i j p rows =
      (get_elem?-map_at i j (patch parse_int p) rows, length-map_at i (patch parse_int p) rows)

-- Removing the server that was added gives the rows before.
pub remove-add_server :
    (rows : List ServerRow) → remove_server (length rows) (add_server rows) ≡ rows
unfolding remove_server add_server
remove-add_server rows = remove_at-append rows _

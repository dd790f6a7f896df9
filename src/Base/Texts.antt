-- ===== src/Base/Texts.antt =====
-- Text: a JavaScript string as the list of its UTF-16 code units.
use Prim.Native.Nat.{ℕ}
use Prim.Native.Char.{code}
use Prim.Native.String.{String}
use mathlib.Core.Path.{◌≡◌, refl, ap}
use mathlib.Core.Logic.{◌↔◌}
use mathlib.Core.Bool.{Bool, true, false, not, ◌&&◌, ◌||◌}
use mathlib.Core.List.{List, [], ◌∷◌, ◌++◌}
use native.Mathlib.Omega.{arith}
use scrapydweb.Base.Tests.{◌==◌}
use scrapydweb.Base.Lists.{any, filter}

abbrev pub Text : Type 0
Text = List ℕ

-- A literal. Every literal of the program is in the basic plane, where a code point is its unit.
abbrev pub text : String → Text
text String.[] = []
text (String.◌∷◌ c s) = code c ∷ text s

-- `a === b`
unfoldable pub same : Text → Text → Bool
same [] [] = true
same [] (_ ∷ _) = false
same (_ ∷ _) [] = false
same (a ∷ s) (b ∷ t) = (a == b) && same s t

pub same_refl : (s : Text) → same s s ≡ true
unfolding same
same_refl [] = refl
same_refl (a ∷ s) = ground (arith, same_refl s)

pub same-eq : (s t : Text) → same s t ≡ true → s ≡ t
unfolding same
same-eq [] [] h = refl
same-eq [] (_ ∷ _) h = cc
same-eq (_ ∷ _) [] h = cc
same-eq (a ∷ s) (b ∷ t) h = ground (arith, same-eq s t)

pub eq-same : (s t : Text) → s ≡ t → same s t ≡ true
eq-same s t e = cc (same_refl s, ap (same s) e)

pub same_iff : (s t : Text) → (same s t ≡ true) ↔ (s ≡ t)
same_iff s t = (same-eq s t, eq-same s t)

pub same_sym : (s t : Text) → same s t ≡ same t s
same_sym s t = ground (arith, same_iff s t, same_iff t s)

-- A string in a condition: the empty one is false.
abbrev pub truthy : Text → Bool
truthy [] = false
truthy (_ ∷ _) = true

-- `a || b`
abbrev pub or_text : Text → Text → Text
or_text [] b = b
or_text (c ∷ a) b = c ∷ a

-- `xs.includes(s)` for texts
unfoldable pub includes_text : List Text → Text → Bool
unfolding any same
includes_text xs s = any (λ x. same x s) xs

pub includes_text-append :
    (ts : List Text) (s k : Text)
    → includes_text (ts ++ s ∷ []) k ≡ (includes_text ts k || same s k)
unfolding includes_text
includes_text-append [] s k = ground arith
includes_text-append (t ∷ ts) s k = ground (arith, includes_text-append ts s k)

pub includes_text-drop :
    (s : Text) (ts : List Text) (k : Text)
    → includes_text (filter (λ t. not (same t s)) ts) k ≡ (not (same s k) && includes_text ts k)
unfolding includes_text filter
includes_text-drop s [] k = ground arith
includes_text-drop s (t ∷ ts) k =
    ground (arith, includes_text-drop s ts k, same_iff t s, same_iff t k, same_iff s k)

-- ===== src/Jobs/Runtime.antt =====
-- `parseRuntime` and `fmtDuration`.
use scrapydweb.Base.{
  ℕ, zero, suc, ◌+◌, ◌*◌, ◌/◌, ◌%◌, ◌≡◌, refl, ap, ◌∙◌, Bool, true, false, ◌||◌, List, [], ◌∷◌,
  ◌++◌, map, Option, none, some, Text, text, truthy, any, any-append, ltb, ◌==◌, if◌then◌else◌,
  arith, All, Bool-cases, inl, inr,
}
use scrapydweb.Js.Decimal.{is_digit, show_digits, show, show-digits, truthy-show, read, read-show}
use scrapydweb.Js.Strings.{split, split-append, split-free, has_unit, All-free}

-- the longest run of digits in front, and what is behind it
unfoldable pub span_digits : Text → Text × Text
span_digits [] = ([], [])
span_digits (c ∷ s) = let (ds, r) = span_digits s in if is_digit c then (c ∷ ds, r) else ([], c ∷ s)

-- `s` without the prefix `p`
unfoldable pub strip : Text → Text → Option Text
strip [] s = some s
strip (c ∷ p) [] = none
strip (c ∷ p) (d ∷ s) = if c == d then strip p s else none

-- a `.` of the pattern matches no line terminator
unfoldable pub has_newline : Text → Bool
has_newline = any (λ c. (c == 10) || (c == 13) || (c == 8232) || (c == 8233))

abbrev line : Text → Option Text → Option (Text × Text)
line ds none = none
line ds (some rest) = if has_newline rest then none else some (ds, rest)

abbrev either : Option Text → Option Text → Option Text
either none o = o
either (some s) o = some s

-- ^(\d+) days?, (.*)$
unfoldable pub days_match : Text → Option (Text × Text)
days_match s =
    let (ds, r) = span_digits s in
    if truthy ds
    then line ds (either (strip (text " days, ") r) (strip (text " day, ") r))
    else none

-- `Number(p)`, `none` for NaN: the language's parse of numerals is a parameter.
module _ (number : Text → Option ℕ) where
  abbrev clock : Option ℕ → List (Option ℕ) → Option ℕ
  clock (some days) (some h ∷ some m ∷ some s ∷ []) = some (days * 86400 + h * 3600 + m * 60 + s)
  clock _ _ = none

  abbrev parts : Option (Text × Text) → Text → Option ℕ
  parts none rt = clock (some 0) (map number (split b':' rt))
  parts (some (ds, rest)) rt = clock (number ds) (map number (split b':' rest))

  unfoldable pub parse_runtime : Text → Option ℕ
  parse_runtime rt = if truthy rt then parts (days_match rt) rt else none

unfoldable pub fmt_duration : ℕ → Text
fmt_duration s =
    if ltb s 60
    then show s ++ text "s"
    else if ltb s 3600
    then show (s / 60) ++ (text "m " ++ (show (s % 60) ++ text "s"))
    else show (s / 3600) ++ (text "h " ++ (show (s % 3600 / 60) ++ text "m"))

-- `str(timedelta)` of the backend, with `d` days, below 24 hours, and minutes and seconds of two
-- digits.
unfoldable pub two : ℕ → Text
two n = if ltb n 10 then b'0' ∷ show n else show n

unfoldable pub clock_text : ℕ → ℕ → ℕ → Text
clock_text h m s = show h ++ (text ":" ++ (two m ++ (text ":" ++ two s)))

unfoldable pub timedelta : ℕ → ℕ → ℕ → ℕ → Text
timedelta zero h m s = clock_text h m s
timedelta (suc zero) h m s = text "1 day, " ++ clock_text h m s
timedelta (suc (suc d)) h m s = show (suc (suc d)) ++ (text " days, " ++ clock_text h m s)

span_digits-append :
    (ds : Text) (c : ℕ) (r : Text)
    → All (λ d. is_digit d ≡ true) ds
    → is_digit c ≡ false
    → span_digits (ds ++ c ∷ r) ≡ (ds, c ∷ r)
unfolding span_digits
span_digits-append [] c r h e = rw e
span_digits-append (d ∷ ds) c r h e = rw (h.0, span_digits-append ds c r h.1 e)

two-digits : (n : ℕ) → All (λ c. is_digit c ≡ true) (two n)
unfolding two
two-digits n = elim (Bool-cases (ltb n 10)) [
  | inl e ↦ rw e (unfold is_digit in refl, show-digits n)
  | inr e ↦ rw e (show-digits n)
]

digits-free : (s : Text) → All (λ c. is_digit c ≡ true) s → has_unit b':' s ≡ false
digits-free s h = All-free is_digit b':' s (unfold is_digit in refl) h

split-clock_text : (h m s : ℕ) → split b':' (clock_text h m s) ≡ show h ∷ two m ∷ two s ∷ []
unfolding clock_text
split-clock_text h m s = rw (
  split-append b':' (show h) _ (digits-free _ (show-digits h)),
  split-append b':' (two m) _ (digits-free _ (two-digits m)),
  split-free b':' (two s) (digits-free _ (two-digits s)),
)

read-two : (n : ℕ) → read 0 (two n) ≡ n
unfolding two
read-two n = elim (Bool-cases (ltb n 10)) [
  | inl e ↦ rw e (unfold read in read-show n)
  | inr e ↦ rw e (read-show n)
]

digit-no_newline :
    (c : ℕ) → is_digit c ≡ true → ((c == 10) || (c == 13) || (c == 8232) || (c == 8233)) ≡ false
unfolding is_digit
digit-no_newline c h = ground arith

digits-no_newline : (s : Text) → All (λ c. is_digit c ≡ true) s → has_newline s ≡ false
unfolding has_newline any
digits-no_newline [] h = refl
digits-no_newline (c ∷ s) h = rw (digit-no_newline c h.0) (digits-no_newline s h.1)

clock_text-no_newline : (h m s : ℕ) → has_newline (clock_text h m s) ≡ false
unfolding clock_text
clock_text-no_newline h m s = has_newline-append (show h) _ (digits-no_newline _ (show-digits h)) (
    colon (two m ++ (text ":" ++ two s)) (
      has_newline-append (two m) _ (digits-no_newline _ (two-digits m))
        (colon (two s) (digits-no_newline _ (two-digits s)))))
  where
    has_newline-append :
        (a b : Text) → has_newline a ≡ false → has_newline b ≡ false → has_newline (a ++ b) ≡ false
    has_newline-append a b ha hb = unfold has_newline in rw any-append (ground arith)

    colon : (a : Text) → has_newline a ≡ false → has_newline (b':' ∷ a) ≡ false
    colon a ha = unfold has_newline any in ha

days_match-clock : (h m s : ℕ) → days_match (clock_text h m s) ≡ none
unfolding days_match clock_text
days_match-clock h m s =
    rw (span_digits-append (show h) b':' _ (show-digits h) (unfold is_digit in refl), truthy-show h)
      (unfold strip in refl)

days_match-days :
    (d : ℕ) (rest : Text)
    → has_newline rest ≡ false
    → days_match (show d ++ (text " days, " ++ rest)) ≡ some (show d, rest)
unfolding days_match
days_match-days d rest h =
    rw (span_digits-append (show d) 32 _ (show-digits d) (unfold is_digit in refl), truthy-show d)
      (unfold strip in rw h)

days_match-day :
    (rest : Text)
    → has_newline rest ≡ false
    → days_match (text "1 day, " ++ rest) ≡ some (text "1", rest)
unfolding days_match span_digits is_digit strip
days_match-day rest h = rw h

truthy-append : (a b : Text) → truthy a ≡ true → truthy (a ++ b) ≡ true
truthy-append [] b h = cc
truthy-append (c ∷ a) b h = refl

truthy-clock_text : (h m s : ℕ) → truthy (clock_text h m s) ≡ true
unfolding clock_text
truthy-clock_text h m s = truthy-append (show h) _ (truthy-show h)

module _ (number : Text → Option ℕ)
    (number-digits : (s : Text)
      → truthy s ≡ true
      → All (λ c. is_digit c ≡ true) s
      → number s ≡ some (read 0 s)) where
  number-show : (n : ℕ) → number (show n) ≡ some n
  number-show n =
      number-digits (show n) (truthy-show n) (show-digits n) ∙ ap (λ (k : ℕ). some k) (read-show n)

  number-two : (n : ℕ) → number (two n) ≡ some n
  number-two n =
      number-digits (two n) (unfold two in truthy-two n) (two-digits n)
      ∙ ap (λ (k : ℕ). some k) (read-two n)
    where
      truthy-two : (n : ℕ) → truthy (if ltb n 10 then b'0' ∷ show n else show n) ≡ true
      truthy-two n = elim (Bool-cases (ltb n 10)) [ inl e ↦ rw e | inr e ↦ rw e (truthy-show n) ]

  clock-clock_text :
      (o : Option ℕ) (d h m s : ℕ)
      → o ≡ some d
      → clock number o (map number (split b':' (clock_text h m s)))
        ≡ some (d * 86400 + h * 3600 + m * 60 + s)
  clock-clock_text o d h m s e =
      rw (e, split-clock_text h m s, number-show h, number-two m, number-two s)

  -- When `Number` reads a run of digits in decimal: the duration that the backend prints is read back in
  -- seconds, with days and without.
  pub parse_runtime-timedelta :
      (d h m s : ℕ)
      → parse_runtime number (timedelta d h m s) ≡ some (d * 86400 + h * 3600 + m * 60 + s)
  unfolding parse_runtime timedelta
  parse_runtime-timedelta zero h m s =
      rw (truthy-clock_text h m s, days_match-clock h m s) (clock-clock_text (some 0) 0 h m s refl)
  parse_runtime-timedelta (suc zero) h m s =
      rw (days_match-day (clock_text h m s) (clock_text-no_newline h m s))
        (clock-clock_text (number (text "1")) 1 h m s (unfold show show_digits in number-show 1))
  parse_runtime-timedelta (suc (suc d)) h m s =
      rw
        (
          truthy-append (show (suc (suc d))) (text " days, " ++ clock_text h m s)
              (truthy-show (suc (suc d))),
          days_match-days (suc (suc d)) (clock_text h m s) (clock_text-no_newline h m s),
        )
        (clock-clock_text (number (show (suc (suc d)))) (suc (suc d)) h m s
          (number-show (suc (suc d))))

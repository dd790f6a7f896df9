-- ===== src/Log/Line.antt =====
-- The line of a Scrapy log: `LOG_LINE` as a parser.
use scrapydweb.Base.{
  ◌>>=◌, ℕ, ◌≡◌, refl, Bool, true, false, not, ◌||◌, Option, none, some, List, [], ◌∷◌, ◌++◌, Text,
  text, truthy, all, All, ◌==◌, if◌then◌else◌, arith,
}
use scrapydweb.Js.Decimal.{is_digit}
use scrapydweb.Js.Strings.{cut, has_unit, cut-append}

pub data Level : Type 0 where
  debug info warning error critical : Level

unfoldable pub level_text : Level → Text
level_text debug = text "DEBUG"
level_text info = text "INFO"
level_text warning = text "WARNING"
level_text error = text "ERROR"
level_text critical = text "CRITICAL"

-- the groups of the match
pub record LogLine : Type 0 where
  pub ts : Text
  pub logger : Text
  pub level : Level
  pub msg : Text

-- The units of a fixed shape, `d` for a digit, and what follows them.
unfoldable pub shaped : Text → Text → Option (Text × Text)
shaped [] s = some ([], s)
shaped (p ∷ ps) [] = none
shaped (p ∷ ps) (c ∷ s) =
    let rest = shaped ps s in
    if (if p == b'd' then is_digit c else c == p)
    then elim rest [ none ↦ none | some (a, b) ↦ some (c ∷ a, b) ]
    else none

-- the longest run of digits, and what follows it
unfoldable pub digit_run : Text → Text × Text
digit_run [] = ([], [])
digit_run (c ∷ s) =
    let rest = digit_run s in if is_digit c then (c ∷ rest.0, rest.1) else ([], c ∷ s)

-- `(?:[.,]\d+)?`: with a point or a comma that no digit follows, the blank behind cannot match
unfoldable pub fraction : Text → Option (Text × Text)
unfolding digit_run
fraction [] = some ([], [])
fraction (c ∷ s) =
    if (c == b'.') || (c == b',')
    then (let run = digit_run s in if truthy run.0 then some (c ∷ run.0, run.1) else none)
    else some ([], c ∷ s)

-- `literal` in front of the text, and what follows it
unfoldable pub after : Text → Text → Option Text
after [] s = some s
after (p ∷ ps) [] = none
after (p ∷ ps) (c ∷ s) = let rest = after ps s in if c == p then rest else none

unfoldable pub first_level : List Level → Text → Option (Level × Text)
unfolding after level_text
first_level [] s = none
first_level (l ∷ ls) s = elim (after (level_text l ++ text ":") s) [
  | some rest ↦ some (l, rest)
  | none ↦ first_level ls s
]

abbrev levels : List Level
levels = debug ∷ info ∷ warning ∷ error ∷ critical ∷ []

-- `.` stops at a line terminator
unfoldable pub is_terminator : ℕ → Bool
is_terminator c = (c == 10) || (c == 13) || (c == 8232) || (c == 8233)

-- ` ?`
abbrev pub drop_blank : Text → Text
drop_blank [] = []
drop_blank (c ∷ t) = if c == 32 then t else c ∷ t

unfoldable pub message : Text → Option Text
unfolding is_terminator all
message s = let m = drop_blank s in if all (λ c. not (is_terminator c)) m then some m else none

abbrev pub stamp_shape : Text
stamp_shape = text "dddd-dd-dd dd:dd:dd"

abbrev pub filled : Text × Text → Option (Text × Text)
filled ([], s) = none
filled (c ∷ a, s) = some (c ∷ a, s)

-- `LOG_LINE.exec(line)`
unfoldable pub parse_line : Text → Option LogLine
unfolding shaped fraction after cut first_level message
parse_line line = do
  stamp ← shaped stamp_shape line
  part ← fraction stamp.1
  inner ← after (text " [") part.1
  parts ← cut 93 inner
  named ← filled parts
  rest ← after (text " ") named.1
  leveled ← first_level levels rest
  msg ← message leveled.1
  some (record { ts = stamp.0 ++ part.0; logger = named.0; level = leveled.0; msg = msg })

-- The line that a Scrapy logger writes.
unfoldable pub print_line : Text → Text → Text → Level → Text → Text
print_line stamp part logger l msg =
    stamp
    ++ (part
        ++ (text " [" ++ (logger ++ 93 ∷ (text " " ++ ((level_text l ++ text ":") ++ 32 ∷ msg)))))

-- A stamp of the shape.
abbrev pub IsShaped : Text → Text → Type 0
IsShaped [] [] = Unit
IsShaped [] (c ∷ s) = ⊥
IsShaped (p ∷ ps) [] = ⊥
IsShaped (p ∷ ps) (c ∷ s) = ((if p == b'd' then is_digit c else c == p) ≡ true) × IsShaped ps s

-- No fraction, or a point or comma with digits.
abbrev pub IsFraction : Text → Type 0
IsFraction [] = Unit
IsFraction (c ∷ s) =
    (((c == b'.') || (c == b',')) ≡ true) × (truthy s ≡ true) × All (λ d. is_digit d ≡ true) s

shaped-append : (ps s t : Text) → IsShaped ps s → shaped ps (s ++ t) ≡ some (s, t)
unfolding shaped
shaped-append [] [] t h = refl
shaped-append [] (c ∷ s) t h = elim h [ ]
shaped-append (p ∷ ps) [] t h = elim h [ ]
shaped-append (p ∷ ps) (c ∷ s) t h = rw (h.0, shaped-append ps s t h.1)

digit_run-append :
    (s t : Text) → All (λ d. is_digit d ≡ true) s → digit_run (s ++ 32 ∷ t) ≡ (s, 32 ∷ t)
unfolding digit_run is_digit
digit_run-append [] t h = refl
digit_run-append (c ∷ s) t h = rw (h.0, digit_run-append s t h.1)

fraction-append : (s t : Text) → IsFraction s → fraction (s ++ 32 ∷ t) ≡ some (s, 32 ∷ t)
unfolding fraction
fraction-append [] t h = refl
fraction-append (c ∷ s) t h = rw (h.0, digit_run-append s t h.2, h.1)

after-append : (p s : Text) → after p (p ++ s) ≡ some s
unfolding after
after-append [] s = refl
after-append (c ∷ p) s = ground (arith, after-append p s)

first_level-append :
    (l : Level) (s : Text) → first_level levels ((level_text l ++ text ":") ++ s) ≡ some (l, s)
unfolding first_level level_text after
first_level-append debug s = refl
first_level-append info s = refl
first_level-append warning s = refl
first_level-append error s = refl
first_level-append critical s = refl

message-blank : (m : Text) → all (λ c. not (is_terminator c)) m ≡ true → message (32 ∷ m) ≡ some m
unfolding message
message-blank m h = rw h

-- A line that is printed is parsed into its parts, for a stamp of the shape with or without a fraction,
-- a name without a bracket, and a message without a line terminator.
pub parse_line-print_line :
    (stamp part logger : Text) (l : Level) (msg : Text)
    → IsShaped stamp_shape stamp
    → IsFraction part
    → truthy logger ≡ true
    → has_unit 93 logger ≡ false
    → all (λ c. not (is_terminator c)) msg ≡ true
    → parse_line (print_line stamp part logger l msg)
      ≡ some (record { ts = stamp ++ part; logger = logger; level = l; msg = msg })
unfolding parse_line print_line
parse_line-print_line stamp part [] l msg hs hf ht hb hm = cc
parse_line-print_line stamp part (g ∷ logger) l msg hs hf ht hb hm = rw (
  shaped-append stamp_shape stamp (part ++ (text " [" ++ rest)) hs,
  fraction-append part (91 ∷ rest) hf,
  cut-append 93 (g ∷ logger) tail hb,
  first_level-append l (32 ∷ msg),
  message-blank msg hm,
)
  where
    tail : Text
    tail = text " " ++ ((level_text l ++ text ":") ++ 32 ∷ msg)

    rest : Text
    rest = (g ∷ logger) ++ 93 ∷ tail

-- ===== src/Log/Colored.antt =====
-- `ColoredLog`: what each line of the log is shown as.
use scrapydweb.Base.{Bool, true, false, ◌||◌, Option, none, some, List, [], ◌∷◌, Text, text}
use scrapydweb.Js.Strings.{starts_with, split}
use scrapydweb.Log.Line.{Level, error, critical, LogLine, parse_line}

-- An entry, or a line that is none: a continuation, in red when `traceback`.
pub data Shown : Type 0 where
  entry : LogLine → Shown
  plain : (traceback : Bool) → Text → Shown

-- `lastLevel`, `none` for ""
unfoldable pub is_alarm : Option Level → Bool
is_alarm (some error) = true
is_alarm (some critical) = true
is_alarm _ = false

unfoldable pub is_traceback : Option Level → Text → Bool
unfolding is_alarm starts_with
is_traceback last line =
    is_alarm last || starts_with (text "Traceback (most recent call last)") line

abbrev pub shown_line : Option LogLine → Option Level → Text → Shown
unfolding is_traceback
shown_line (some m) last line = entry m
shown_line none last line = plain (is_traceback last line) line

abbrev pub next_level : Option LogLine → Option Level → Option Level
next_level (some m) last = some m.level
next_level none last = last

-- `lines.map(…)` with the assignments to `lastLevel`
unfoldable pub colored : Option Level → List Text → List Shown
unfolding parse_line
colored last [] = []
colored last (line ∷ lines) =
    let m = parse_line line in shown_line m last line ∷ colored (next_level m last) lines

unfoldable pub colored_log : Text → List Shown
unfolding colored split
colored_log s = colored none (split 10 s)

-- ===== src/Examples/Pages.antt =====
-- The settings, log, code, alerts and projects pages.
use scrapydweb.Base.{
  ℕ, ◌≡◌, refl, ap, Bool, true, false, not, List, [], ◌∷◌, none, some, Text, text, includes_text,
  any, same, All, all, ◌&&◌,
}
use scrapydweb.Js.Decimal.{show, read, read-show, is_digit}
use scrapydweb.Js.Strings.{split, has_unit}
use scrapydweb.Settings.Draft.{
  bool, Draft, Edit, assign, discard, replay, is_assigned, shows_error, shows_error-replay,
}
use scrapydweb.Log.Line.{
  parse_line, print_line, IsShaped, stamp_shape, warning, is_terminator, parse_line-print_line,
}
use scrapydweb.Code.Tree.{Has, build_tree, is_clear, leads_to}
use scrapydweb.Code.Tree.Reach.{build_tree-Has}
use scrapydweb.Code.Page.{CodeState}
use scrapydweb.Api.Types.{AlertRule, stop}
use scrapydweb.Alerts.Rule.{Number, whole, save, open_rule, send}
use scrapydweb.Alerts.Rule.RoundTrip.{saved_rule, save-open_rule}
use scrapydweb.Projects.Versions.{Answer, refused, prune}
use scrapydweb.Projects.Versions.Latest.{prune-keeps_latest, prune-tally}

abbrev robots : Text
robots = text "ROBOTS"

abbrev two_edits : List Edit
two_edits = assign robots (bool true) ∷ discard robots ∷ []

abbrev with_error : Draft
with_error = record { draft = []; errors = (robots, text "invalid") ∷ [] }

shows_error-replay_example :
    shows_error robots (replay two_edits with_error).errors
    ≡ (not (is_assigned two_edits robots) && shows_error robots with_error.errors)
shows_error-replay_example = shows_error-replay two_edits with_error robots

no_bracket : has_unit 93 (text "scrapy.core") ≡ false
unfolding has_unit
no_bracket = refl

no_terminator : all (λ c. not (is_terminator c)) (text "slow") ≡ true
unfolding all is_terminator
no_terminator = refl

abbrev a_stamp : Text
a_stamp = text "2026-06-06 16:01:58"

stamp-IsShaped : IsShaped stamp_shape a_stamp
unfolding is_digit
stamp-IsShaped = (
  refl,
  (
    refl,
    (
      refl,
      (
        refl,
        (
          refl,
          (
            refl,
            (
              refl,
              (
                refl,
                (
                  refl,
                  (
                    refl,
                    (refl, (refl, (refl, (refl, (refl, (refl, (refl, (refl, (refl, tt))))))))),
                  ),
                ),
              ),
            ),
          ),
        ),
      ),
    ),
  ),
)

parse_line-print_line_example :
    parse_line (print_line a_stamp [] (text "scrapy.core") warning (text "slow"))
    ≡ some
        (record { ts = a_stamp; logger = text "scrapy.core"; level = warning; msg = text "slow" })
parse_line-print_line_example =
    parse_line-print_line a_stamp [] (text "scrapy.core") warning (text "slow") stamp-IsShaped tt
      refl no_bracket no_terminator

abbrev keep_order : Text → Text → Bool
keep_order a b = true

abbrev a_spider : Text
a_spider = text "demo/spiders/books.py"

two_files-clear : is_clear (a_spider ∷ text "scrapy.cfg" ∷ []) ≡ true
unfolding is_clear leads_to split all same
two_files-clear = refl

build_tree-Has_example :
    All
      (λ p. Has (split 47 p) p (build_tree keep_order (a_spider ∷ text "scrapy.cfg" ∷ [])))
      (a_spider ∷ text "scrapy.cfg" ∷ [])
build_tree-Has_example =
    build_tree-Has keep_order (a_spider ∷ text "scrapy.cfg" ∷ []) two_files-clear

abbrev nothing_open : CodeState
nothing_open = record { selected = none; expanded = [] }

abbrev a_rule : AlertRule
a_rule = record {
  id = 4;
  name = text "books";
  enabled = true;
  project_pattern = text "demo";
  spider_pattern = text "*";
  thresholds = (text "ERROR", record { threshold = 5; action = some stop }) ∷ [];
  on_finished = some true;
  on_running_interval = some 60;
  channels = some (text "slack" ∷ []);
}

abbrev number : Text → Number
number s = whole (read 0 s)

number-show : (n : ℕ) → number (show n) ≡ whole n
number-show n = ap whole (read-show n)

save-open_rule_example : save number (open_rule a_rule) ≡ send (saved_rule a_rule)
save-open_rule_example = save-open_rule number number-show a_rule

abbrev refuses : Text → Answer
refuses v = refused

other-version : includes_text (text "1" ∷ []) (text "2") ≡ false
unfolding includes_text any same
other-version = refl

prune-keeps_latest_example :
    includes_text (prune refuses (text "1" ∷ text "2" ∷ [])).left (text "2") ≡ true
prune-keeps_latest_example = prune-keeps_latest refuses (text "1" ∷ []) (text "2") other-version

prune-tally_example : (prune refuses (text "1" ∷ text "2" ∷ [])).result ≡ some 1
prune-tally_example = prune-tally refuses (text "1" ∷ []) (text "2") (tt, tt)

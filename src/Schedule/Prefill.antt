-- ===== src/Schedule/Prefill.antt =====
-- The initial values of the form: `blankForm` for a new run, `taskToForm` for a stored timer task.
pub mod RoundTrip
use scrapydweb.Base.{
  ℕ, zero, suc, ◌≡◌, Bool, true, false, not, ◌&&◌, List, [], ◌∷◌, ◌++◌, map, Option, none, some,
  or_else, Text, text, or_text, same, Obj, get, if◌then◌else◌,
}
use scrapydweb.Js.Decimal.{show}
use scrapydweb.Js.Json
use scrapydweb.Js.Json.{Json, Items, Fields}
use scrapydweb.Js.Strings.{cut, join}
use scrapydweb.Api.Types.{TaskRow}
use scrapydweb.Payload.{Row, now, cron, Mode, add, add_fire, ScheduleForm, latest}

-- `String(value)` of a value that `JSON.parse` gives
unfoldable mutual
  pub to_string : Json → Text
  to_string Json.null = text "null"
  to_string (Json.bool true) = text "true"
  to_string (Json.bool false) = text "false"
  to_string (Json.num n) = show n
  to_string (Json.str s) = s
  to_string (Json.arr vs) = join (text ",") (item_texts vs)
  to_string (Json.obj fs) = text "[object Object]"

  -- the items of an array, where `join` prints null as the empty text
  pub item_texts : Items → List Text
  item_texts Json.nil = []
  item_texts (Json.cons Json.null vs) = [] ∷ item_texts vs
  item_texts (Json.cons v vs) = to_string v ∷ item_texts vs

-- "KEY=VAL" at the first "="; a text without one is a key with no value
unfoldable pub split_setting : Text → Row
split_setting s = elim (cut b'=' s) [
  | none ↦ record { key = s; value = [] }
  | some (k, v) ↦ record { key = k; value = v }
]

-- `(sa.setting as string[]).map(…)`: an item that is no text has no `indexOf`, which throws
unfoldable pub setting_rows : Items → Option (List Row)
setting_rows Json.nil = some []
setting_rows (Json.cons (Json.str s) vs) = elim (setting_rows vs) [
  | none ↦ none
  | some rows ↦ some (split_setting s ∷ rows)
]
setting_rows (Json.cons v vs) = none

-- `Array.isArray(sa.setting) ? … : []`
unfoldable pub setting_value : Json → Option (List Row)
setting_value (Json.arr vs) = setting_rows vs
setting_value v = some []

-- the rows of `sa.setting`
unfoldable pub stored_settings : Fields → Option (List Row)
stored_settings Json.end = some []
stored_settings (Json.field k v fs) =
    let rest = stored_settings fs in if same k (text "setting") then setting_value v else rest

-- the other entries, as argument rows
unfoldable pub stored_args : Fields → List Row
stored_args Json.end = []
stored_args (Json.field k v fs) =
    if same k (text "setting")
    then stored_args fs
    else record { key = k; value = to_string v } ∷ stored_args fs

abbrev nodes_or_first : List ℕ → List ℕ
nodes_or_first [] = 1 ∷ []
nodes_or_first (n ∷ ns) = n ∷ ns

-- `sa` and `nodes` are what the two calls of `JSON.parse` give, `none` when the call throws: the
-- object of settings and arguments, and the list of nodes.
unfoldable pub task_to_form : Option Fields → Option (List ℕ) → TaskRow → Option ScheduleForm
task_to_form sa nodes t =
    let fields = or_else sa Json.end in
    elim (stored_settings fields) [
      | none ↦ none
      | some settings ↦ some (record {
        project = t.project;
        version = or_text t.version latest;
        spider = t.spider;
        jobid = t.jobid;
        nodes = nodes_or_first (or_else nodes []);
        settings = settings;
        args = stored_args fields;
        mode = cron;
        name = t.name;
        action = add;
        task_id = some t.id;
        year = t.year;
        month = t.month;
        day = t.day;
        week = t.week;
        day_of_week = t.day_of_week;
        hour = t.hour;
        minute = t.minute;
        second = t.second;
      })
    ]

-- `params.get("timer") === "1"`
abbrev is_timer : Option Text → Bool
is_timer none = false
is_timer (some s) = same s (text "1")

unfoldable pub blank_form : ℕ → Obj Text → ScheduleForm
blank_form node params = record {
  project = or_else (get (text "project") params) [];
  version = or_else (get (text "version") params) latest;
  spider = or_else (get (text "spider") params) [];
  jobid = [];
  nodes = node ∷ [];
  settings = [];
  args = [];
  mode = if is_timer (get (text "timer") params) then cron else now;
  name = [];
  action = add_fire;
  task_id = none;
  year = text "*";
  month = text "*";
  day = text "*";
  week = text "*";
  day_of_week = text "*";
  hour = text "*";
  minute = text "0";
  second = text "0";
}

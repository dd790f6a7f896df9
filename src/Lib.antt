-- ===== src/Lib.antt =====
-- The web front end of ScrapydWeb: the TypeScript application under frontend/src, which schedules Scrapy
-- spiders on Scrapyd nodes through the JSON endpoints of the Python backend.
--
-- The program's parts. `lib/api.ts` makes every request: a helper turns an HTTP answer into a value, an
-- error or a visit to the login page, and one method per endpoint gives the URL and the body. The pages
-- keep React state, hand it to a method, and turn the reply into toasts, invalidated queries and new
-- state. `lib/schedule-payload.ts` serializes the Run Spider form, `lib/scrapy-settings.ts` is the
-- catalogue that the form is checked against, and `lib/node-context.tsx` keeps the selected node.
--
-- The files.
--   Base                Boolean tests, lists, text as lists of UTF-16 code units, objects as lists of keys
--                       with values in insertion order.
--   Js                  what is used of JavaScript: `String` of a number, string methods, JSON.stringify,
--                       encodeURIComponent, URLSearchParams; Js/View is what a component shows, as a list of
--                       texts, links and controls that carry the event they raise.
--   Payload             frontend/src/lib/schedule-payload.ts: buildScheduleForm is Payload/Form, sanitizeJobid
--                       Payload/Sanitize, shellQuote Payload/Shell, the two commands Payload/Curl.
--   Api                 frontend/src/lib/api.ts: the records are Api/Types, getJSON to postForm Api/Helpers,
--                       the object `api` Api/Calls.
--   Catalogue           frontend/src/lib/scrapy-settings.ts.
--   Schedule            frontend/src/pages/schedule.tsx: the schema is Schedule/Validate, taskToForm and blankForm
--                       Schedule/Prefill, SchedulePage Schedule/Page, the mutation `run` Schedule/Run; the command of
--                       frontend/src/components/schedule/summary-panel.tsx is Schedule/Summary, its cards are
--                       Schedule/Cards; cron-preview.tsx is Schedule/Cron, when-card.tsx
--                       Schedule/When, target-card.tsx Schedule/Cards/Target, setting-key-combobox.tsx
--                       Schedule/Cards/KeyBox.
--   Shared              frontend/src/lib/utils.ts, datetime.ts, node-context.tsx, and
--                       frontend/src/components/node-multi-select.tsx and confirm-dialog.tsx.
--   Jobs                frontend/src/pages/jobs.tsx: the filters, setFilter, parseRuntime, a row's cells and
--                       actions; what the page shows is Jobs/Table and Jobs/Pager.
--   Groups              frontend/src/pages/group.tsx: the form and toRecord are Groups/Form, the page's state and
--                       its events Groups/Page, what it shows Groups/View, the requests of RunDialog and
--                       ScheduleDialog Groups/Dialogs, their states Groups/Run.
--   Settings            frontend/src/pages/settings.tsx: draft and errors are Settings/Draft, the tab Settings/Tabs,
--                       FieldControl and MonitorFields Settings/Controls, ListInput Settings/ListInput,
--                       ServersEditor Settings/Servers; what is shown is Settings/Fields and Settings/Page.
--   Log                 frontend/src/pages/log.tsx: LOG_LINE is Log/Line, ColoredLog Log/Colored, StatsPanel's
--                       texts Log/Panel, what the pages show Log/Page.
--   Code                frontend/src/pages/code.tsx: buildTree is Code/Tree, the page's state Code/Page, what it shows
--                       Code/View.
--   Alerts              frontend/src/pages/alerts.tsx: RuleDialog is Alerts/Rule, WorkingTimeBanner Alerts/Banner,
--                       the list and the tests of the channels Alerts/Rules; the dialog's view is
--                       Alerts/Rule/View.
--   Projects            frontend/src/pages/projects.tsx, whose cards are Projects/Page, and
--                       frontend/src/components/project-dialog.tsx.
--   Tasks               frontend/src/pages/tasks.tsx; its table is Tasks/Table.
--   Deploy              frontend/src/pages/deploy.tsx: the page is Deploy/Page, AutoDeployCard Deploy/Auto,
--                       RecentDeploysCard and CiTemplateCard Deploy/History, GitDeployCard Deploy/Git.
--   Dashboard           frontend/src/pages/dashboard.tsx.
--   Frame               what is around the pages: frontend/src/components/app-sidebar.tsx, topbar.tsx and AuthGate
--                       of frontend/src/App.tsx are Frame/Nav, its routes Frame/Routes, user-menu.tsx
--                       Frame/UserMenu and Frame/Password, search-command.tsx Frame/Search,
--                       project-combobox.tsx Frame/ProjectBox.
--   Auth                frontend/src/pages/login.tsx and frontend/src/pages/tokens.tsx.
--   Examples            the theorems at concrete inputs.
--
-- How the code corresponds. A component's state is a record of its `useState` values, a handler is a
-- function on it, and what a handler shows or invalidates is a list of effects in order. A mutation is
-- split at its `await`s: the backend's answers are arguments, an exception is a constructor of the answer.
-- Loops are structural recursion, so no fuel is used but in `show_digits`, which starts with one round
-- more than the number, and a number has fewer digits than that.
--
-- Parameters. Code that is not in the repository stands as an argument: the parse of numerals (`Number`,
-- `parseInt`, `parseFloat`), `JSON.parse`, `new Date`, texts for the locale, `toLowerCase`,
-- `localeCompare`, and the backend's answers. What is relied on is a named hypothesis.
--
-- Not modelled: styles, icons and the layout of what is shown, the drawing of charts, the copied UI kit
-- under frontend/src/components/ui, how the router matches an address, the providers of
-- frontend/src/main.tsx, and the Python backend, of which only what it keeps of a group is written out, as
-- a specification in Groups/Form/RoundTrip. What a page shows is modelled as its texts and controls in order. React runs a handler to its end before the next event, which is why a state and an event give
-- one new state.
pub mod Base
pub mod Js
pub mod Payload
pub mod Api
pub mod Catalogue
pub mod Schedule
pub mod Shared
pub mod Jobs
pub mod Groups
pub mod Settings
pub mod Log
pub mod Code
pub mod Dashboard
pub mod Alerts
pub mod Auth
pub mod Frame
pub mod Projects
pub mod Tasks
pub mod Deploy
pub mod Examples

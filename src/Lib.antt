-- ===== src/Lib.antt =====
-- The front end of Mihomo Control Plane (web/src): its logic without the rendering.
--
-- The front end fetches data from the server's API, merges and normalizes it, and shows it. The parts
-- modelled here are the functions between the API and the pages, and the state of pages and forms:
--
-- - Prelude: tests on numbers, lists, lists without repetition and the pigeonhole principle.
-- - Js: what the source uses of JavaScript. `Js.Text` has strings as lists of UTF-16 code units
--   (trim, startsWith, includes, ===), what the searches find (`Occurs`) and `String(n)`;
--   `Js.Value` has values of type `unknown` and the doubles among them, as exact dyadic fractions,
--   NaN and the infinities; `Js.Record` is assignment and spreading of objects; `Js.TextSet` is a
--   `Set` of strings in insertion order; `Js.Date` has the integers that instants are; `Js.Move`
--   has indexOf and the law of arrayMove.
-- - NodeInventory: web/src/lib/node-inventory.ts. `Protocol` is normalizeProtocol and protocolLabel;
--   `Rows` is buildNodeRows with its loop for a unique key; `Keys`, `Push` and `Build` prove it;
--   `Filter` is filterNodeRows; `Options` is protocolOptions, countryOptions and providerSummaries.
-- - NodeScore: web/src/lib/node-score.ts (`Band`, `Info`, `Sources`, with proofs in `Facts` and
--   `Split`) and the view of web/src/api/node-scores.ts (`View`).
-- - NodeScoreDetail: web/src/components/node-scores/node-score-detail.tsx: what its dialog shows, as
--   rows of labels and texts and two cards over NodeScore.View.
-- - Api: the functions of the API objects of web/src/api. `Requests` gives each its method and
--   path; `Routes` is the route table of internal/server/server.go, with the pages of the front end
--   for every other path, and the choice that http.ServeMux documents, for clean paths; `Meant`
--   names the handler that each function is meant for; `Segments` and `Served` prove that it is
--   reached, `Guards` is about the routes behind adminOnly. Names `.` and `..`, which a URL does
--   not keep as segments, are left out.
-- - Session: the auth store (web/src/stores/auth.ts), the hooks of web/src/api/client.ts, the login
--   page, the logout of the header and ProtectedRoute (web/src/routes.tsx), as functions on a
--   browser: the store, the storage and the location. `Login` is handleSubmit over the answers of
--   its requests, `Steps` a step relation over everything that changes the session.
-- - ProxyList: the delay tests of web/src/components/proxies/proxy-list.tsx. The answers come in any
--   order; `Delays` joins them to the rows of NodeInventory.
-- - ProxiesPage: web/src/pages/proxies.tsx, its state, the answers of its two fetches in any order
--   (`Fetches`), and its rows by NodeInventory.
-- - Runtime: the paths of web/src/lib/proxy-path.ts for the requests of ProxyList.
-- - ProxyForm: web/src/components/proxies/proxy-form.tsx with its table of fields; `Keys` is about
--   the change of the type, `Saved` about opening, editing and saving.
-- - RuleProviders: web/src/pages/rule-providers.tsx: `Form`, the content `Editor` over events and
--   late answers, and the page as a step relation over its buttons, dialogs and answers
--   (`Deleting`), whose requests are those of Api.
-- - SystemConfig: web/src/pages/system-config.tsx. The fields are a table of paths and controls;
--   `Paths` is about nested values, `Fields` about editing one field, `Lists` about lists edited as
--   text.
-- - Settings: web/src/pages/settings.tsx: `App` is the card of the application settings, `Users` the
--   dialog and the table of the users, `Deleting` its step relation, `Draft` the editor of the
--   configuration against the draft of internal/handler/settings.go, over requests that arrive, get
--   lost, or lose only their answer.
-- - ProxyGroups: web/src/components/proxy-groups. `Members` has the edits of a member list as a step
--   relation, `Config` the form from loading to what it saves.
-- - Rules: web/src/components/rules, the handlers of web/src/pages/rules.tsx, and the table behind
--   them (internal/store/rule_store.go, internal/handler/rule.go). `Order` is about a drag, `Table`
--   about the numbers that the server gives, `Save` about the form.
-- - NodeScoresPage: web/src/pages/node-scores.tsx. `Shown` is about its filters over NodeScore.View,
--   `Selection` about the boxes and the batch refresh, as a step relation.
-- - Traffic: the dialog of a provider and the thresholds of web/src/pages/traffic.tsx.
-- - Publish: the handlers of web/src/components/publish/publish-preview.tsx with the callbacks of
--   web/src/pages/publish.tsx; what they tell and request is a list of effects.
-- - Subscription: `Timestamp` is normalizeTimestamp of web/src/api/subscriptions.ts. `Form` is the
--   form of web/src/components/subscriptions/subscription-form.tsx: its state, its effect and its
--   handlers as functions on the state; `Form/Submit` is `submit`, which gives the form and the
--   call of `onSave`, if any; `Form/Provider`, `Form/Conditions`, `Form/Checks`, `Form/Payload` and
--   `Form/Ranges` prove it. `WallTime` is wallTimeToISO, toDateTimeInput and zoneOffsetMinutes;
--   `Format` has the offsets, masked URLs, countdown and staleness of
--   web/src/lib/subscription-format.ts.
-- - SubscriptionsPage: web/src/pages/subscriptions.tsx. `Deleting` reads errors by ApiError;
--   `Refreshing` is about the summary of refreshing all.
-- - ApiError: readApiError of web/src/lib/api-error.ts.
-- - I18n: web/src/i18n. `En` and `Zh` are the two dictionaries, entry by entry; `I18n` is the
--   function `t`; `Parity` and `Interpolate` prove it.
-- - Witnesses: concrete inputs, tests, and each theorem at an input that meets its hypotheses.
--
-- Types: `null` and missing values are `none`; a class of string constants is a data type; an object of
-- unknown shape is an association list, read as `o.name` reads own properties.
--
-- Fuel: the key loop of buildNodeRows takes one round more than there are used keys. The keys it tries
-- are different from one another, so one of them is free by then.
--
-- Parameters, since they are the host's: `lower` (toLowerCase), `to_text` (String of a value of any
-- type), `to_number` (Number of a text), `utc_year` (the year of a date text), and for the form the
-- record `Host` with its `Clock` (Intl, Date and the arithmetic on doubles), `time_of` (the time of
-- a date text) and `parse_url` (the URL constructor); no law of them is assumed. Third-party code is a
-- parameter with laws: `Persist`
-- (the persist middleware of zustand restores what it has written, and the initial state from nothing),
-- `array_move` (arrayMove of @dnd-kit moves one element between two positions of the list), and
-- `UriComponent` (what encodeURIComponent gives decodes to the name and holds no `/`).
--
-- Not modelled: rendering and styling, HTTP itself (a request is what it answers), timers and polling,
-- several tabs on one storage; properties that objects inherit from Object.prototype; the server, which
-- is written in Go, apart from its table of rules, its routes and the draft of its configuration.
pub mod Prelude
pub mod Js
pub mod NodeInventory
pub mod NodeScore
pub mod NodeScoreDetail
pub mod Session
pub mod Api
pub mod ProxyList
pub mod ProxiesPage
pub mod ProxyForm
pub mod ProxyGroups
pub mod Rules
pub mod RuleProviders
pub mod Runtime
pub mod NodeScoresPage
pub mod Traffic
pub mod Publish
pub mod SystemConfig
pub mod Settings
pub mod Subscription
pub mod SubscriptionsPage
pub mod ApiError
pub mod I18n
pub mod Witnesses

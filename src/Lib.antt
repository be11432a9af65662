-- ===== src/Lib.antt =====
-- Dipstick runs a team's health check: a facilitator opens a room, members register, vote on one
-- topic after another, and see the votes when the facilitator reveals them. This library is about
-- the server's part of it, packages/backend/src, and the live connection's state in the browser.
-- The browser hears of the session through a socket: a route publishes an event, the dispatcher
-- of each pod offers it to the connections in its registry, and asks for access at each.
--
-- Parts and files
--   Sessions/   the session lifecycle routes over one store.
--     Defs, Store, Replies   the rows (packages/backend/migrations/1_ and 2_), the
--       store of tables, Redis keys and published events, the replies; writeTemplateAccessDenial
--       of teams/template-team-guard.ts.
--     Registration, LockIn   routes/sessions.ts: the participants and the lock-in route.
--     Room, Start, Reveal, Advance   routes/facilitator-sessions.ts: advance (the room), start and
--       begin-voting, reveal, topics/advance and complete.
--     Snapshot   sessions/session-topic-snapshot.ts.
--     Access     auth/session-subscriber-access-helper.ts.
--     Steps      the routes together: `handle` and `run` for requests one after another, `Step` for
--       interleaved ones, where every request is a check and, later, a transaction.
--     Frozen, Lifecycle, Progress, Races, Ballots, Voters, Reveals, Listeners,
--       Numbering   theorems; Lookup, Edges and TopicEdges carry lemmas for them.
--   Topics/    the seven routes of routes/topics.ts over a store of their own.
--     Defs       the rows, with the columns of migrations 16, 17 and 19, the replies, the store.
--     Gates      the checks that all routes share, with auth/standing-facilitator-access-helper.ts,
--       auth/assign-defaults-audit.ts and enforceTopicWriteRateLimit of
--       routes/topic-write-rate-limit.ts.
--     Names      packages/shared/src/types/topic.ts: the rule on names, planDefaultRestore.
--     Changes    the transactions of adding, assign-defaults (with sessions/default-topics.ts),
--       archiving (with auth/open-action-items-helper.ts), restoring and annotating.
--     BulkRestore, Reorder   the transactions of restore-defaults and order.
--     Bodies     the validation of bodies; Handle   the routes as a whole.
--     Tidy       the table's rules; Invariant, NewOrder, Parity, LastActive, ThereAndBack,
--       Authority, Assigned, DenialRows   theorems; Free, Joining, Copying, Quiet, Phases, Reordering,
--       Targets, Sequence, Walk, Ids, Sorted, Placing, Accepting, LastArchived, Checks,
--       ValidOrder, Refusals   lemmas for them.
--   Realtime/   what a published event reaches.
--     Registry   realtime/connection-registry.ts.
--     Dispatch   realtime/ws-event-dispatcher.ts, the session's events.
--     Membership, Delivery   theorems.
--   RateLimit/  limits on what one actor may do.
--     Windows      auth/sliding-window-limiter.ts, both scripts.
--     TopicWrites  routes/topic-write-rate-limit.ts; Denials  auth/denial-audit-limiter.ts.
--     Tracking, Bounds, Waits   theorems.
--   Auth/       who a user is, and what of a team they may read.
--     Roles      auth/role-map.ts: the role that a claim gives.
--     TeamAccess auth/team-content-access-helper.ts, and the gate of routes/content.ts on it.
--     Precedence, RoleSets, TeamScopes   theorems.
--   Client/     Health   packages/frontend/src/realtime/connectionHealth.ts (the other paths in this
--     list are from packages/backend/src); Timers, Recovery   theorems.
--   Base/   tests, lists, tables as lists of rows, maps and integers.
--   Examples (in each folder) hold concrete stores with tests and uses of the theorems.
--
-- How state and operations correspond
--   A route handler is a function `f now ... : Store → Store × Reply`, made of a `check_f`, the
--   queries before the transaction, and a `commit_f`, the transaction with what follows it. A check
--   that refuses answers; one that grants hands a ticket with the values that the handler keeps in
--   variables. A transaction that rolls back returns the store it began with. Each transaction is
--   one step: its row locks are held to its end.
--   SELECT, UPDATE ... WHERE and COUNT are `find_row`, `update_rows` and `count_rows`, with the
--   statement's own condition as the test.
--   Identifiers are numbers, as only equality is used of them (and an order, in the snapshot). Times
--   are milliseconds. `next_id` stands for gen_random_uuid. The template team's id is number 1.
--   A topic route is two rounds of checks (`check_request` for the shared ones, `prepare` for its
--   own) and one transaction, `commit`, which runs under the team's topic lock; `handle` is all
--   three. `World` holds what the services answer meanwhile. display_order is an integer, since
--   the reorder's first phase writes negative ones; `update_checked` is an UPDATE that meets the
--   unique index row by row. The built-in functions on texts are the parameter `JsText`.
--   The registry's Maps are lists of entries; a connection's timers and socket stand in the hub
--   under its number. Candidates are served in order, where the source awaits them together.
--   A Redis sorted set is the list of its scores with the key's expiry; Redis and the app server
--   read one clock. A script is one step.
--
-- Bounds
--   Nothing here runs on fuel: every function recurses on a list of rows, requests or candidates.
--   No number here is near a machine bound: the largest are times in milliseconds.
--
-- Not modelled
--   Failures of PostgreSQL and Redis (but for refused constraints, the calls of the two limiters,
--   and the audit rows written outside of a transaction). A limiter's call that is given up may
--   still be counted: then it is counted at its place in the order of the requests. Not modelled
--   are emitAuditEvent's log lines, correlation ids and messages' texts, actor_ip, and the authentication in front of the routes.
--   The action items that `start` reads for its reply, the rows behind a vote_revealed payload
--   (the message shows the grant and the status it is built from), the events of a team's scope.
--   The routes for teams, content (but for the gate), action items, EM views, join links, the OIDC
--   exchange, session creation, and the rest of the frontend.
pub mod Base
pub mod Sessions
pub mod Topics
pub mod Realtime
pub mod RateLimit
pub mod Auth
pub mod Client

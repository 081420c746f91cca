-- ===== src/Lib.antt =====
-- Verification of the booking core of the second-generation service, fsd-v2/backend/src.
--
-- The program. Rooms of a tenant are booked by its users. A request passes the checks of
-- modules/bookings/bookings.service.ts (access, policy, operating hours, clashes), is written under
-- row locks, and may start a chain of approvals (modules/approvals). Users and crons then move the
-- booking on: decisions, check-in, no-show, auto-release, cancellation. Each change queues a push to
-- the remote calendars (modules/sync-outbox). A series of bookings is made from a rule, moved and
-- cancelled as one (recurrence.service.ts). Guards limit requests per client and route, and check the
-- permissions of the user's role. Kiosks at the doors book too, and events go out as
-- webhooks and mails. Guest visits have a lifecycle of their own (modules/visitors).
--
-- The files. Each module opens with the source file that it models.
--   Base          tests, lists, strings and results that all modules share
--   Store         the entities and the database: modules/*/*.entity.ts; Db is what the services share
--   Common        common/tz.ts (Tz), common/operating-hours.ts (OperatingHours), the roles (Roles),
--                 and what the series use of JavaScript's Date (Calendar)
--   Bookings      modules/bookings: booking-validator.service.ts (Validator), checkin.service.ts
--                 (Checkin), auto-release.service.ts (AutoRelease), and bookings.service.ts: access
--                 and fields (Rules), opening hours and all-day requests (Hours), rooms that share
--                 space (Conflict), create (Create), applyUpdate and update (Update), cancel (Cancel).
--                 History has any of their calls in any order; NoOverlap is about single calls.
--                 Recurrence is recurrence.service.ts: expand, expandRRule (Rule), createSeries and
--                 cancelSeries (Series), and updateSeries of bookings.service.ts (Edit); its other
--                 files are proofs
--   Approvals     modules/approvals/approvals.service.ts: chains (Chain), grades of grade.ts (Grade),
--                 who may act (Eligibility), decide (Decide), the crons (Sweeps), delegate (Delegate)
--   SyncOutbox    modules/sync-outbox/sync-outbox.service.ts
--   Guards        common/guards/rate-limit.guard.ts (RateLimit)
--   Permissions   modules/permissions: permission-catalog.ts (Catalog), permissions.service.ts and
--                 common/guards/permissions.guard.ts (Service), any sequence of calls (History)
--   Kiosk         modules/kiosk/kiosk.service.ts
--   Leases        the claim that the outboxes of webhooks and mails share, by an interface
--   Webhooks      modules/webhooks: webhook-url.ts (Url), webhooks.service.ts (Service)
--   Notifications modules/notifications/notifications.service.ts, normalizeLocale of its i18n.ts;
--                 Once is about its ticks, by way of Counts and Rows
--   Visitors      modules/visitors: the service and what its controller lets through; Lifecycle has
--                 any of its calls in any order
--   Tests         the theorems at concrete inputs
--
-- The model. A function keeps its name in snake case. A service method takes the database and the
-- time, and returns a result: the new database, or the exception that it throws, which leaves the
-- database as it was since each write is one transaction. A call is one step and a history is a
-- list of calls. For create and for an update that moves a booking this is what their row locks
-- give. cancel, an update that moves nothing, issueToken, checkinByBooking, markNoShow,
-- markAttended and quickBook find and then save without a lock: that nothing comes in between is an
-- assumption of the model. The histories of Bookings have no series calls, which have theorems of
-- their own. A series is written call by call, and what it answers stands beside the tables after
-- it, also where it throws; so do the calls that fill a cache. Sweeps read a list first and then
-- visit rows against the database of that moment, as the code does. Ids are numbers, and the id of
-- an insert is taken from a counter; as a request's field, 0 stands for the empty string. An
-- instant is the milliseconds since 1970, a calendar date its day number, a string the list of its
-- code units. What is sent to the outside is a list of effects.
--
-- Parameters. Intl.DateTimeFormat (`format_to_parts`, `none` where it throws), randomBytes (the
-- token), the reply of Redis, the permission check of a delegate, the errors of the calendar
-- adapters, the parsed process environment, Date.parse of a text that is not RFC 5545, new URL,
-- dns.lookup, node's net.isIPv4 and net.isIPv6, what a webhook's target answers, and what the mail
-- relay answers.
--
-- Bounds. All loops run over lists; the walk over calendar dates has the source's own bound of 366
-- days as its fuel, and the batches have the source's limits of 1000 and 50. The weekly and monthly
-- loops of a series have as fuel the rounds that the source's guard of 1000 iterations allows, and
-- weekdays and month days may be negative, as the controller lets them through; a month is found
-- within d / 28 + 1 steps of a day d, which `month_of-ends` shows to be enough.
--
-- Not modelled: the reads and their projections, rule CRUD, the body of a webhook and its
-- signature, the texts of mails, dates past the year 275760, numbers of a series request that are
-- not whole, the row stamp of a permission edit that changes nothing, the controllers, and the
-- other modules of the service, which are CRUD, calls of remote services or text; the React client;
-- the first-generation Go service.
mod Base
pub mod Store
pub mod Common
pub mod Approvals
pub mod Bookings
pub mod SyncOutbox
pub mod Guards
pub mod Permissions
pub mod Kiosk
pub mod Leases
pub mod Notifications
pub mod Visitors
pub mod Webhooks
mod Tests

-- ===== src/Lib.antt =====
-- A verification library of the monitoring server and its probe: what becomes of a check's result from the
-- probe's buffer to the stored rows, the alerts and the reports.
--
-- The parts and how they interact. A probe runs checks and holds each result in a buffer until the control plane
-- acknowledges it. The control plane takes a batch of results, orders it by time, decides for each whether it is
-- silent (maintenance, or an unavailable ancestor), what it does to the monitor's verdict and whether it raises
-- an alert, writes the heartbeats in one transaction, saves the states, records certificates and registrations
-- and only then acknowledges. The rollup pipeline aggregates the heartbeats into a chain of tiers and deletes
-- what the retention policy gives up; reports compute their figures from the counts of the tiers. The probe's
-- session holds its assignments and a queue of due tasks, and sheds what it cannot start in time. A sweep
-- evaluates the maintenance windows and flags the monitors that they cover, in the column that ingest writes
-- too. The live bus sends each change to the browsers that hold the monitor, and the dispatcher sends alerts to
-- the channels that want them and retries what fails. Cron expressions drive maintenance windows and report
-- schedules. The scopes of an API key, which its creator's must cover, decide which operations it may call.
--
--   Model               internal/model: monitors, states, heartbeats, certificates, registrations
--   Probe/Wire          proto/cairn/probe/v1/result.proto: the result message
--   Probe/Buffer        internal/probe/buffer.go: Add, Next, Ack, Rewind, Stats
--   Probe/Schedule      internal/probe/scheduler.go: push, pop, drop, firstDue
--   Probe/Session       internal/probe/session.go, watch.go, execute.go: applyFullSet, applyDelta, validate,
--                       schedule, shed, run, emit, shouldReport, reschedule
--   Probe/StatusRanges  internal/probe/check/statusranges.go: parseStatusRanges, accepts, String
--   Probe/JsonPath      internal/probe/check/jsonpath.go: parseJSONPath; Assertion: evaluate, assert, compare
--   Maintenance         internal/maintenance/schedule.go: Next, ActiveAt, State, dayMatcher, startTimes
--   Maintenance/Sweep   internal/maintenance/sweep.go: Sweep, Notify
--   Store/Maintenance   internal/store/sqlite/maintenance.go: DueMaintenanceWindows, SetNextOccurrence,
--                       MonitorsUnderWindows, ApplyMaintenance
--   Live                internal/live/live.go: Subscribe, Update, Close, deliver, Publish, PublishSummary
--   Live/Steps          the same, cut at its locks, with the interleavings of its goroutines
--   Live/Summariser     internal/live/summary.go: Publish, Touch, Run
--   Store/Heartbeats    internal/store/sqlite/heartbeats.go: WriteBatch
--   Store/States        internal/store/sqlite/monitors.go: SaveState
--   Store/Rollups       internal/store/sqlite/rollup.go: RollUpRaw, RollUpTier, LatestBucket, EarliestRaw
--   Control/Ingest      internal/controlplane/ingest.go: suppression, ancestorUnavailable, apply, shouldResend
--   Control/Batch       internal/controlplane/ingest.go: ingestResults
--   Control/Observations internal/controlplane/observations.go: record and what it calls
--   Rollup              internal/rollup/rollup.go: Tiers, Bucket, window, Rollup
--   Rollup/Stalls       the same for the minute tier over the rows of Store/Rollups, pass after pass
--   Rollup/Retention    internal/rollup/rollup.go: Retention, deleteAll, Retain; the deletes of
--                       internal/store/sqlite/rollup.go
--   Notify              internal/notify/dispatcher.go: Publish, Start, run, attempt, scheduleRetry, retryable
--   Report/Uptime       internal/report/uptime.go: ComputeUptime, Sum
--   Report/Breaches     internal/report/breach.go: ComputeBreaches, DowntimeSeconds
--   Report/Window       internal/report/window.go: ResolveWindow, ResolveTier
--   Report/Schedule     internal/report/schedule.go: CronFor, parseSendAt, NextRun
--   Cron                internal/cron/cron.go: Parse, MatchesDay, Next
--   Auth                internal/auth/scope.go: Valid, Implies, Grants, Covers, ScopesFor
--   Base                shared names, lists and integers over native numbers, bytes, maps, decimal
--                       numbers, the string functions
--
-- A component's definitions stand in the file of its name, its theorems in files below it named for what they
-- are about, and its tests, with an example of each theorem, in Tests. Method receivers become arguments, and
-- what a method changes is in its result; names are the source's in snake case.
--
-- Numbers. An instant is a whole number of nanoseconds since the epoch, negative before it; a zero time.Time is
-- `none`. Go's int is a number where it counts, and ℤ where it is read from text or may be negative; a
-- wrap-around is written out (uint32 and uint64 counts, the shed counter, the step of a cron field). Ratios and
-- seconds of downtime are exact fractions: rounding errors of floats are not modelled.
--
-- Fuel. Buffer.shed_loop has as much as there are items, since each round removes one. The walk up the parents
-- has the ten rounds of the source, Cron.search the 1500 days of the source. Retention.delete_all takes the
-- number of its turns, and more turns than rows are enough where nothing interrupts it. Cron.expand has 130
-- turns, where a step of at most step_limit takes at most 60. JsonPath.parse_steps has as many turns as bytes,
-- and each turn takes at least one. Maintenance.try_days has the 1500 days of the source.
--
-- Parameters. The database's reads and their failures, the formatting of a date (RFC 3339), the turns of a
-- delete loop (proceeding, cancelled, failed), the calendar of a time zone and the zones found by name, the
-- readings of the clock, fresh result ids, the checkers of a probe and what they observe, JSON decoding and
-- floats, and what the send of an alert gives are arguments.
--
-- Not modelled: the gRPC streams, registration and reconnects, the checks themselves, the I/O and templates of
-- notification channels, the other report figures, rendering, the HTTP API, the remaining SQL. A method under a
-- lock is one step; where a method gives its lock up in between, as those of the live bus do, Live/Steps has a
-- step for each part. The probe's session is a sequence of its calls, a check's start and end being two of them.
-- container/heap is modelled by what it promises, the order of a map's keys as that of an association list.
-- Error classes and the texts of shed results are left out. SQL statements are modelled by what they do to the
-- rows; a cutoff is truncated as it is stored; a bounded DELETE, which leaves open which rows it takes, takes
-- the first ones.
pub mod Base
pub mod Model
pub mod Store
pub mod Probe
pub mod Control
pub mod Rollup
pub mod Live
pub mod Maintenance
pub mod Notify
pub mod Report
pub mod Cron
pub mod Auth

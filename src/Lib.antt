-- ===== src/Lib.antt =====
-- The verified core of seatfirst: the dates that a search selects, the search for seats that suit a
-- party, the groups of hits and the answer that a search gives, the alternatives when a placement is
-- gone, the browser guard and the outbox relay.
--
-- The program. `packages/core` keeps a showtime's seats as bitmaps over a grid of rows and columns.
-- A provider's cells are built into a layout (`layout.ts`); a wish about seats is a region, a tree
-- that is compiled into a mask of the layout (`region.ts`); the free seats, the pool of seats and
-- the mask give the starts of runs for a party (`bitmap.ts`, `region.ts`), on metrics of the layout
-- that `metrics.ts` computes. `group-assembly.ts` joins the showtimes of a layout into one result
-- group with its hits, `answer-assembly.ts` makes recommendations of the hits of all groups. The
-- dates of a search are read from its predicate by `local-time.ts`. When a placement that was
-- offered is gone, `recovery-ladder.ts` looks for another one among the hits of the group, on four
-- rungs. `packages/durability/src/lifecycle.ts` turns the persisted facts of a search and the
-- evidence of the scorer into one answer. `packages/browser-runtime/src/guard.ts` allows the
-- navigations of the browser corridor. `apps/server/src/relay/daemon.ts` publishes the rows of the
-- outbox; token buckets and sliding windows limit the calls of remote services and of sessions.
--
-- The files.
--   Prelude     the names that all share: native numbers, lists, tests, outcomes, bits of a byte
--   Fault       the errors that packages/core throws
--   Bitmap      packages/core/src/bitmap.ts, operation by operation; in its children what the cells
--               of each result are. `Denotes b n f` says that b is the canonical bitmap of the cells
--               below n at which f holds
--   Layout      packages/core/src/layout.ts: seat kinds, kind masks, buildAuditoriumLayout
--   Region      packages/core/src/region.ts: compileRegion, midpointMask, regionRunStarts; Syntax has
--               the tree and its schema (packages/core/src/search-spec.ts), Holds its meaning
--   Metrics     packages/core/src/metrics.ts: computeSeatMetrics and the four metrics; Regions puts
--               layout, metrics and regions together
--   Schedule    packages/core/src/search-spec.ts, canonicalizeDateRuns, and local-time.ts,
--               resolveScheduleWindowPlan and matchesScheduleWindow; Runs and Canonical are about the
--               runs, Walk and Scope about the traversal, Dates and Plan about the plan
--   Group       packages/core/src/group-assembly.ts: the loops of assembleResultGroup, in Result its
--               gates and the whole; Sets has the starts of a shape, Hits and Placed the hits, Members
--               their scores, Counts the free showtimes, Ladder the ladder on an assembled group
--   Answer      packages/core/src/answer-assembly.ts: the candidates, in Ranked the choice among them
--               and assembleAnswerEvidence; Built, Conditions and Origins say what the candidate of a
--               hit is, Selection which one is chosen; Served adds deriveRankedAnswer
--   Blocks      the cells of a block of seats, row by row, and their names
--   Sorting     Array.prototype.sort, stable, by a strict comparison
--   Recovery    packages/core/src/recovery-ladder.ts: the data and the order of candidates; Schema has
--               the check of an option (result-contracts.ts, RecoveryOptionSchema), Rungs the four
--               levels and the ladder, its children their theorems
--   Lifecycle   packages/durability/src/lifecycle.ts: deriveRankedAnswer
--   Corridor    packages/browser-runtime/src/guard.ts: checkDocument
--   Relay       apps/server/src/relay/daemon.ts and state.ts: pollOnce, processRow, the loop's state
--   Limits      apps/server/src/tmdb/token-bucket.ts, geocode/token-bucket.ts and session/limiter.ts:
--               acquire, round by round; check and charge of a window
--   Predicate   packages/core/src/search-spec.ts: matchesMoviePredicate, matchesFormatPredicate
--   Ranking     packages/core/src/candidate-rank.ts: collectTimeWindows, formatMatchForPerformance
--   Examples    the theorems applied at concrete inputs
--
-- The model. A function that may throw returns an `Outcome`. A loop that counts is `for_range`, a
-- loop over a list `for_each`, both structural. The loop of popcount that clears the lowest bit
-- until none is left runs on fuel of `rounds_of_byte` rounds, since a byte has eight bits. Bytes
-- are natural numbers with their bound as a hypothesis; the 32-bit counters wrap. Numbers with a
-- fraction are an abstract type with the comparison, magnitude and literals that the code uses.
-- Text is the library's. Parameters of the model: NFC normalisation, title normalisation, the
-- layout fingerprint and the placement key (hashes), the URL parser, the provider's route
-- predicate, and the database and broker of the relay, which are functions on a world that is
-- passed on. The quotients of the metrics, the mean of scores and the arithmetic of the answer are
-- parameters too. The tokens of a bucket are exact fractions, without the rounding of doubles. The
-- names of a group's seats are a function from cells, for an object with finitely many keys: a loop
-- over infinitely many columns meets a missing name. A score is the bit pattern of a double, a date the number of its day and a time
-- of day its minute, read by parameters.
--
-- Not modelled: the SQL statements, HTTP, queues, crawlers and the user interface, which are
-- effects; the score of a seat, the deep links and copied fields of groups and answers, the other
-- ranking signals, and the conversion of instants to local time, which the platform does.
pub mod Prelude
pub mod Fault
pub mod Bitmap
pub mod Blocks
pub mod Layout
pub mod Region
pub mod Metrics
pub mod Schedule
pub mod Sorting
pub mod Recovery
pub mod Group
pub mod Answer
pub mod Lifecycle
pub mod Corridor
pub mod Relay
pub mod Limits
pub mod Predicate
pub mod Ranking
pub mod Examples

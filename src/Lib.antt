-- ===== src/Lib.antt =====
-- Verification of EPHI's core rules. EPHI serves one product episode at a time: evidence of its
-- recovery is judged, commands and background jobs change durable tables, and every change is made
-- once, under a lease or a version that is checked where it is written.
--
-- Recovery (src/ephi/recovery.py) decides from submitted observations whether an episode has recovered.
--   Recovery/Model        the enumerations, `RecoveryPolicy`, `RecoveryObservation`, `RecoveryEpisode`
--                         and their `__post_init__` as functions into a result type
--   Recovery/Evaluator    `RecoveryEvaluator.evaluate`, one entry per call of its `add`
--   Recovery/Evaluator/Criteria   the evaluation against a record of plain conditions
--   Recovery/Service      `RecoveryService` with its three dictionaries; each method returns its
--                         answer and the service, also after a raise
--   Recovery/Service/*    the invariant, what a submission does, sequences of calls, guarantees
-- Worker (src/ephi/application/worker.py, src/ephi/infrastructure/postgresql_worker.py) is the durable queue.
--   Worker/Model          the rows of the tables `job`, `applied_effect` and `aggregate_state`, the
--                         transaction, the lease checks
--   Worker/Queue          `enqueue` (with the rows that a race commits)
--   Worker/Claims, Health   `claim` in one statement, `operations_health_facts`
--   Worker/Leases         `heartbeat`, `complete`, `fail`, `defer`, `cancel`
--   Worker/Effects        `commit_local_effect`, `has_committed_local_effect`
--   Worker/Rows, Invariant, Steps, Entry, Runs   the invariant of rows, kept by every operation and
--                         by every sequence of transactions
--   Worker/Stale, Fencing, Once, Order, Sweep, Dedup   superseded leases, effects applied once, the job
--                         that is claimed, a claim without a job, one job for a semantic key
-- Commands (src/ephi/application/context.py, storage.py, transactions.py, src/ephi/infrastructure/sqlite.py)
-- executes one versioned command with its audit event, outbox event and receipt.
--   Commands/Context      principals, scopes, `CurrentAuthorizationAuthority.authorize`
--   Commands/Store        the tables and the statements of `_SQLiteCommandTransaction`
--   Commands/Command, Writes   the arguments and results of a command, and what its transaction writes
--   Commands/Executor     `VersionedAggregateCommandExecutor.execute`, its replay and reconciliations
--   Commands/Laws, History, Again   what a command leaves in the tables, what any commands after it keep,
--                         and what it does when it is sent twice
-- Planner (src/ephi/application/planner.py) ranks the next checks of an episode.
--   Planner/Facts, Templates   the enumerations, the current facts, templates, policies, snapshots
--   Planner/Eligibility, Eligibility/*   `_eligibility`, one part per group of its conditions
--   Planner/Score, Ranking, Recommendation   `_score`, `_pareto_front`, `_rank_key`, `_recommendation`
--   Planner/Select, Plan      the selection loop and `plan`
--   Planner/Loop, Returns     what the loop keeps, and the stages of a plan that was returned
--   Planner/Eligible, Assured, Partition, Complete, Redundancy, Best, Bounds, Progress   its properties
-- DecisionLoop (src/ephi/application/decision_loop.py) is the nested record of an episode's cycles of work:
-- checks, external actions, closures and reopenings. Its commands are effects that the
-- executor of Commands runs; here they stand without it.
--   DecisionLoop/Model    the nested records, with times and identities in place of texts
--   DecisionLoop/State    `_state_object`, `_active_cycle`, `_require_open`, `_refs`, `_revision_payload`
--   DecisionLoop/Checks, Actions, Closing, Reopening   the commands on checks and on actions,
--                         `close_episode`, `reopen_episode`, `initialize_decision_loop`
--   DecisionLoop/Commands   the commands as one function, through `_execute`
--   DecisionLoop/Versions, Sound, Edits, Returns   the search for a free cycle name, what a state in order
--                         is, what each command returns
--   DecisionLoop/InOrder, Lifecycle, Work, Confirmed   its properties
-- Base holds what the parts share: tests on numbers, equality as an interface, texts as lists of code
-- points with Python's `strip`, dictionaries, integers, decimal digits, and the result type with its do blocks.
--
-- Representation. Times are microseconds on a line that no reading precedes; a float of the recovery
-- rules, finite and not negative, is counted in units of 2 ^ -1074. Each statement has a reading of
-- the database's clock of its own, an argument, in any order; where one statement reads the clock
-- for several columns, the readings are one. The rows' counters and priorities are unbounded, where
-- the database raises a storage failure past the range of a column. A sum over a set is taken in the
-- order of the list. A transaction sees a table as a list of rows; row locks serialize transactions,
-- except that `claim` is told which rows others hold (SKIP LOCKED) and `enqueue` which rows others
-- commit between its SELECT and its INSERT. Payloads, their normal form, the hash functions, the
-- database's order of texts and the JSON of the command core are parameters (the records Payloads,
-- Codecs, Hashes and LoopHashes); so is decimal arithmetic, whose division rounds (the record
-- Decimals). Authorization is given the resolver's answer at each call. Every loop of the modelled
-- code goes once over a list, but for two: the selection of checks recurs on the number of
-- recommendations that are still allowed, and the search for a free cycle name runs on fuel, one
-- more than the number of cycles, which is enough as each name that is taken is another cycle's. The
-- digits of a number n have the fuel n + 1. Ages are compared in microseconds, which agrees with the
-- float comparison of the source for every age below 2 ^ 33 seconds.
--
-- Not modelled: checks that only concern Python types, the construction checks (`__post_init__`) of
-- the planner's records, overflow of a datetime, `as_dict` projections, failures of the connection
-- to the database, `inspect` and its filters, the default fixture mutations, the user interface, the
-- command line, the decision loop's commands on recovery plans, releases, migrations, and the parts
-- of src/ephi/application that are not named above.
pub mod Base
pub mod Commands
pub mod DecisionLoop
pub mod Planner
pub mod Recovery
pub mod Worker

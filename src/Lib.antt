-- ===== src/Lib.antt =====
-- Verification of the manager of DAC, the TypeScript under src/ of the repository: the parts of it
-- that decide, keep state and spend money. The manager runs agent nodes (processes, containers, and
-- nodes of other machines), places the agents of a service on machines, dispatches conversations to
-- them, starts runs by schedule and keeps the books of what they cost.
--
-- The parts and the files:
--
-- - Prelude: Boolean tests, lists over the native numbers, texts and dictionaries
--   (`Map<string, V>`), and a stable sort (`Array.sort`) with the laws of a comparator.
-- - Nodes/Policy, Nodes/Supervisor: src/nodes/supervisor.ts. Policy has `backoffDelayMs` and
--   `decideAfterExit`. Supervisor/State is the class `NodeSupervisor` as a record; Launch has its
--   private methods (`spawnOnce`, `armReadyProbe`, `startDocker`, `startAgent`, `onExit`,
--   `failAndRetry`), Commands its public ones (`start`, `stop`, `restart`, `resume`, `adopt`), Events
--   what comes back later: exits, timers, results of containers and machines, probes. A method that
--   awaits is cut in two there, so that any event can come between the halves. An effect (a kill, a
--   container command, a message to a machine) is an entry of a list in the state. Failures,
--   Crashes, Stopping, Restarting and Probing have the proofs.
-- - Services/Dispatch: src/services/dispatch.ts, `pickWorker` and its candidates.
-- - Services/Placement: src/services/placement.ts, `planPlacement`: hard constraints, score, rounds.
--   The arithmetic of the score is on doubles, so it is a parameter, as is `localeCompare`; of them
--   only the laws of a comparator are used.
-- - Services/Plan: src/services/agents-plan.ts, `planAgents`, which calls `planPlacement` for the
--   agents that are missing. Plan/Endpoint is `parseAgentEndpoint`, whose pattern is written out as
--   functions on texts.
-- - Usage/Store: src/usage/store.ts, the queries as folds over the usage records: a SUM skips an
--   unknown cost, which is counted apart. The bounds of a local day or month are an argument.
-- - Cron/Scheduler: src/cron/schedule.ts, the class `Scheduler`. State has its rows and maps,
--   Attempt the method `attempt` up to the turn (`begin`) and after it (`finish`), Load the methods
--   `recordMissed`, `load`, `start`, `reload` and `stop`. It reads the spend of the day from
--   Usage/Store. The library croner is a record of operations with its documented laws; the turn is
--   an argument.
-- - Chat/Queue: src/chat/queue.ts, the queues of turns, one for each chat; the end of a turn is an
--   event.
-- - PublicApi/Tables, PublicApi/Quota, PublicApi/Load: src/public-api/quota.ts and
--   src/public-api/service-load.ts, the admission of a key's dispatch and the load that the
--   dispatcher reads, as folds over the rows of the tables `run` and `chat`. The local midnight is an
--   argument.
-- - PublicApi/Sweep: src/public-api/idle-sweep.ts, the archiving of idle conversations.
-- - Chat/Replay: src/chat/replay.ts, `compactHistory`. The merged chunk of a type, which the source
--   changes in place, is found by its type in the output.
-- - Runner/Frames, Runner/Pricing: src/frames.ts and src/pricing.ts, the counts and the price of a
--   response; the doubles of the rates are a parameter.
-- - Runner/Turn, Runner/Summary: src/runner/turn.ts, the frames of a turn and `makeFinish`, which
--   writes the ledger that Usage/Store reads. Runner/Waiting: src/runner.ts, what a turn waits for:
--   `trackAwaiting`, `armSilence`, the declines of outward turns and the table `approvalQueue`.
-- - Runner/Drive: src/runner.ts, `driveTurn` from the subscription on. It puts Runner/Turn and
--   Runner/Waiting together; the frames, the recoveries of open asks, the cancellation and the
--   answer to the prompt are signals in any order.
-- - Upstream/Frames, Upstream/Mux: src/upstream/translate.ts and src/upstream/mux.ts. Mux/State has
--   the stores of connections, sets of listeners and sockets, which several closures share; Wire the
--   messages, Sockets `attach` with its handlers, Subscriptions the rest, Steps all events in any
--   order.
-- - Auth/Session: src/auth/session.ts, the sessions of browsers; the digest is a parameter that is
--   assumed to be injective. Lifetime has the operations in any order, Revoked what follows a
--   revocation.
-- - Approval/Decide: src/approval.ts, `decidePendingApproval`, on the table that Runner/Waiting
--   writes. The calls of the host are part of the result.
-- - Reconcile: src/reconcile/index.ts. Registry is `mirrorAgents`, Boot `convergeRuns` and
--   `convergeAgentCommands`, Heal `convergeNodes`, which calls the commands of Nodes/Supervisor. Mirror
--   compares the table with the configuration.
-- - Fleet/Watchdog: src/fleet/watchdog.ts, the alerts about machines and nodes that go offline.
--
-- Times, counts and amounts of money (micro-dollars) are natural numbers; all of them are far below
-- 2 ^ 53, where the source's numbers are exact. Every loop is structural on the list or the number
-- that it walks. Fuel is used twice: for the digits of a number in Services/Plan, which get more than
-- its digits, and for the groups by model in Usage/Store, which get the number of the rows.
--
-- Not modelled: the HTTP routes, the command line, the pages, the configuration parser, the SQL
-- schema, the transports to agents and containers, the workspace and backup files, and the log. The
-- constructor of a WebSocket throws only for an address that is no URL; the addresses of hosts are
-- taken to be URLs, so in Upstream/Mux it returns a socket.
pub mod Approval
pub mod Auth
pub mod Chat
pub mod Cron
pub mod Fleet
pub mod Nodes
pub mod Prelude
pub mod PublicApi
pub mod Reconcile
pub mod Runner
pub mod Services
pub mod Upstream
pub mod Usage

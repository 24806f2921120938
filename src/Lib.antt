-- ===== src/Lib.antt =====
-- pi-task runs coding tasks with an agent: a plan is put in an order and run node by node, each
-- node in a session that watchdogs guard. This library models the parts that decide, in
-- packages/core-v2/src and extensions/task.
--
-- * Watchdog.Decide is packages/core-v2/src/guards/watchdogs.ts and the reasons of
--   packages/core-v2/src/budget/execution-budget.ts: pure decisions from times and counters, one
--   function per function of the source.
-- * Watchdog.Driver is the class WatchdogDriver of packages/core-v2/src/guards/watchdog-driver.ts:
--   its private fields are the record, each method is a function of the state (make is the
--   constructor, on_event is split into dispatch and on_settle_action, tick into tick_verdict and
--   tool_verdict). Its children are about acting once (Latch), what a tick finds (Oldest, Tick,
--   Hangs) and what attachWatchdogs does to a session (Attach). The clock is an argument of each
--   call, and what the driver does to the outside is a log.
-- * Workflow.Dag is packages/core-v2/src/workflow/dag.ts, from the maps of the nodes to the queue
--   and the reported cycle. Its children are about the maps (Edges), the queue (Kahn), what is
--   returned (Order) and what is accepted (Accept).
-- * Workflow.Scheduler is packages/core-v2/src/workflow/scheduler.ts: a turn is one round of the
--   while loop, over the sets of the source as lists of their elements by insertion. Its children
--   are about the steps (Progress), what they keep true (Verdicts, Chunk), the rounds (Rounds,
--   Settles), plans that synthesis gave (Plans), the width of a chunk (Width), the nodes in flight
--   together (Flights), how often a node is called (Calls) and a width of nothing (Stuck).
-- * Workflow.Gate is packages/core-v2/src/workflow/gate.ts and the approvals of
--   packages/core-v2/src/ledger/store.ts, and Workflow.Build is
--   packages/core-v2/src/workflow/build.ts, with what a recorded approval decides (Gated).
-- * Ledger is packages/core-v2/src/ledger/store.ts, the SQLite tables of tasks and of the edges
--   from a parent task to the child that continues it. Rows has the statuses and the tables, as
--   lists of rows by their keys; a call is a function from the tables to its result, or the
--   message of its error, and the tables after it. Each SQL statement is a small function, named
--   by what it updates. Tasks has the calls on tasks and the transaction, which drops what an
--   error left; Children the claims and the moves to resumable and blocked; Artifacts, Outbox and
--   Settlement the terminal settlement of an edge; Delivery its acknowledgements; Boot what a
--   restart does to tasks. Machine is the state machine of one edge, a data type of moves between
--   its status with its settlement (View); Steps shows that the calls make only these moves, Runs
--   and Delivered follow them over runs of calls, Acknowledged the three acknowledgements, Claims
--   who wins a claim, Refusals what errors leave, Overlay the tasks as a store, and Restart a boot.
-- * Checklist is extensions/task/tools/checklist.ts: the list, the tool that a worker calls and
--   the reminders, with a session as a list of entries. Its children are about a mark (Marks), the
--   marks of a session (Sessions) and when it is reminded (Reminders).
-- * Jobs is extensions/task/scheduler.ts: which jobs are due, their dispatch and the command line.
--   Its children are about what a run dispatches and what is due after it (Due) and about the
--   arguments (Arguments). Starting a process is a function from the job to its result.
-- * Prune is extensions/task/prune.ts: what a reviewer is shown of a conversation. Its children
--   are about what is kept (Facts) and what is gone (Clean).
-- * Router is packages/core-v2/src/router/route.ts: the plan mode and the lane of a task. Its
--   children are about the feedback as counts (Samples, Counts). Rates, which are floats, are a
--   type with the quotient, the difference from one and the comparisons of the source.
-- * Continuation is packages/core-v2/src/continuation/pruner.ts: both scorers and the budget that
--   they keep to. Its children are about the budget (Budget, Scorers), about what is always kept
--   (Kept) and what a retry leaves out (Retry). Scores, which are floats, are a type with its order,
--   and the text that is counted of a content is given.
-- * Common has the lists, the sets and maps of JavaScript over texts, and results of code that
--   throws.
--
-- Numbers are natural numbers. The watchdogs' times are whole milliseconds. A maxParallel is a
-- fraction, an infinity or not a number. Loops that need not end take fuel: the queue of synthesis
-- and the walk that reports a cycle one more than the number of nodes, since no node enters either
-- twice, and the scheduler as much as it is given, of which one more than the number of nodes is
-- enough at a width of at least one, since each round settles a node. A node's run is a function
-- from its id to its outcome, so a run that never settles is not modelled, and a chunk counts as
-- settled when all of it is. Gateways and callbacks do not call back. Exceptions of a gateway, which
-- the source drops, and of the callback of a watchdog, which it does not, are not modelled.
--
-- Of the tables of the ledger, columns that no decision reads, of times and of providers, are left
-- out, and a row with a null key, which no query finds, is left out. Foreign keys are a test where
-- an insert could break one. The schema of an artifact reference, the regular expression of a
-- content address and the first 256 characters of a text are functions that are given. Stored JSON
-- is taken to parse, as it was checked when it was written. The tables are in the state between
-- two calls, and a lock that another connection has makes a claim return nothing.
--
-- Not modelled: the preparation of children and the boot of child edges, the standalone recovery
-- and the migrations of the ledger, the daemon, workspaces on jj, the context compiler, the agent
-- sessions, the rest of extensions/task, and everything that only reads files or runs commands.
pub mod Checklist
pub mod Common
pub mod Continuation
pub mod Jobs
pub mod Ledger
pub mod Prune
pub mod Router
pub mod Watchdog
pub mod Workflow

-- ===== src/Lib.antt =====
-- Decompi: the control plane of a decompilation effort. Work items are selected, claimed by workers
-- under leases, worked on by agents within a budget, and finalized with a status and an event.
--
-- How the files follow the program (paths from the repository's root):
--   Core/Store      src/core/store: the effect of one SQL statement on the rows of one table, and
--                   what keys guarantee. All tables below are lists of rows. Transaction has the
--                   outer transaction, Ordering the ORDER BY of a query.
--   Core/Events     src/core/events.ts: EventStore, with emit, the drain that stores a batch, the
--                   back-pressure on producers, and the reads.
--   Core/Worker     src/core/worker.ts: WorkerPool, with request, pump, dispatch and what each event
--                   of a process does to its slot.
--   Core/Daemon     src/core/daemon.ts: finalizeWorkflowItem, which writes a status (Workflow/Status),
--                   a work item and an event (the table of Core/Events) in one transaction,
--                   and the calls on leases (Target/Claim) under the daemon's epoch.
--   Target/Claim    src/target/claim.ts: ClaimStore, with claim, heartbeat, release and reapExpired.
--   Target/Selector src/target/selector.ts: the WHERE clause of a selector, what it selects, and the
--                   pages of select.
--   Target/Deps     src/target/deps.ts: the edges between work items.
--   Target/WorkItem src/target/work-item.ts: the codec of rows, insert, get and update.
--   Target/Registry src/target/registry.ts: the validation of a snapshot of untrusted values, and in
--                   Restore exportRegistry and importRegistry.
--   Workflow/Status src/workflow/status.ts: setStatus, resolveStatus, isDone, unsetStatus.
--   Workflow/Scope  src/workflow/scope.ts: a scope folded into a selector of Target/Selector.
--   Workflow/Ladder, Workflow/Compile  src/workflow/compile.ts: the status ladder, reserved tools, and
--                   compileWorkflow, whose pipeline runs in Pipeline/Engine.
--   Workflow/Facade src/workflow/facade.ts: addWorkflow, which registers what is compiled with the
--                   engine of Pipeline/Engine/Registry.
--   Server/Semaphore  the Semaphore of src/server/scheduler.ts.
--   Server/Scheduler  RunScheduler of src/server/scheduler.ts: the pump, and in Steps the calls
--                   createRun, pause, resume, cancel and close and the execution of a run, each cut
--                   at its awaits; a step lets one of the tasks that wait go on.
--   Agent/Budget, Agent/RateLimit  src/agent/budget.ts and src/agent/ratelimit.ts.
--   Pipeline/Engine src/pipeline/engine.ts: batches; in AgentLoop the step agentLoop, in Foreach the
--                   step foreach with its routes and their budgets, and in Scope the other steps,
--                   scopes and a run of a pipeline; in Registry the registration of pipelines and
--                   fragments with the search for route cycles, and in Completion the default writer
--                   storeFinalize; in Triggers runPipeline with the runs that it triggers. Agents,
--                   verifiers and the hooks of a workflow are parameters, which are taken to return.
--   Pipeline/Guard  src/pipeline/run.ts: sessions guarded by the budget, and resumed selections.
--   Base            names of the libraries, Boolean tests, lists over the native numbers, and results
--                   and values of JSON.
--   Tests           the results at concrete data.
-- An operation has the name of its method in the source, in snake case; a method that changes a
-- table or an object is a function from its state to the state after. Concurrency is explicit: a
-- history is a list of steps, other writers between the statements of a claim are a function, and
-- the choices of the operating system, of the clock and of the timers are arguments.
--
-- Bounds. Times are natural numbers of milliseconds, or of ticks in Agent/RateLimit, where a quotient
-- of milliseconds has to be whole; amounts are whole micro-USD. The loop of claim runs on its three
-- attempts. The paging loop of select has fuel for its rounds: a round that does not end the loop has
-- consumed a row, so one more than there are matching rows is enough. The pump has fuel for as many
-- rounds as there are queued runs, since each round takes one off the queue. An agent loop has fuel for
-- one turn more than its retries, and a foreach for as many windows as it has items, since none is
-- empty. Scopes have fuel for how deep they are nested, which is bounded where no route leads a
-- fragment to itself. The search for route cycles has fuel for one call more than the route graph has
-- entries, since each call that goes deeper paints an entry that was white. A run has fuel for
-- how deep it triggers further runs, each of which has fired a key of its own.
--
-- Not modelled: the SQL engine itself, JSON, byte framing and process signals; the validation of input other
-- than snapshots; hooks and writes that throw; the contexts and helpers of workflows, the parsers and the analysis; the HTTP API, the command line, prompts and model
-- providers, which are input and output.
pub mod Agent
pub mod Base
pub mod Core
pub mod Pipeline
pub mod Server
pub mod Target
pub mod Tests
pub mod Workflow

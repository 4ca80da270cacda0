-- ===== src/Server/Scheduler.antt =====
-- `RunScheduler` of src/server/scheduler.ts: its rows, its memory, and the operations that run without a
-- pause. A run is named by a number, which stands for its UUID; a promise that an execution waits for
-- is named by a number as well. Of a run's specification the pipeline, the model and the budget are
-- kept. Lifecycle events are left out, since nothing reads them back, and writes to the store are
-- taken to succeed.
pub mod Steps
pub mod Pumping
use decompi.Base.{
  length, ℕ, suc, ◌+◌, Bool, true, false, not, ◌&&◌, ◌||◌, List, [], ◌∷◌, ◌++◌, Option, none, some,
  String, ◌==◌, ◌===◌, or_else, if◌then◌else◌, any, length, ℕ_discrete,
}
use decompi.Core.Store.{query, update_where, find, insert_ignore}
use decompi.Server.Semaphore.{Semaphore, semaphore, try_acquire, release}

pub data RunStatus : Type 0 where
  queued running paused done failed cancelled : RunStatus

pub record RunSpec : Type 0 where
  pub pipeline : String
  pub model : String
  pub budget_micro_usd : Option ℕ

-- A row of `runs`.
pub record RunRow : Type 0 where
  pub id : ℕ
  pub spec : RunSpec
  pub status : RunStatus
  pub pause_requested : Bool
  pub created_at : ℕ
  pub started_at : Option ℕ
  pub finished_at : Option ℕ

abbrev pub is_queued : RunStatus → Bool
is_queued queued = true
is_queued _ = false

abbrev pub is_running : RunStatus → Bool
is_running running = true
is_running _ = false

abbrev pub is_paused : RunStatus → Bool
is_paused paused = true
is_paused _ = false

abbrev pub is_cancelled : RunStatus → Bool
is_cancelled cancelled = true
is_cancelled _ = false

abbrev pub is_terminal : RunStatus → Bool
is_terminal done = true
is_terminal failed = true
is_terminal cancelled = true
is_terminal _ = false

-- The row of a run.
abbrev pub row_of_run : ℕ → List RunRow → Option RunRow
row_of_run = find ℕ_discrete (λ r. r.id)

-- `UPDATE runs SET f WHERE id = ? AND p`
unfoldable pub update_run : ℕ → (RunStatus → Bool) → (RunRow → RunRow) → List RunRow → List RunRow
update_run id p f rows = (update_where (λ r. (r.id == id) && p r.status) f rows).0

abbrev pub always : RunStatus → Bool
always s = true

unfoldable pub mark_running : ℕ → ℕ → List RunRow → List RunRow
mark_running now id =
    update_run id (λ s. not (is_terminal s))
      (λ r. record r { status = running; started_at = some (or_else r.started_at now) })

unfoldable pub finish_aborted : ℕ → ℕ → List RunRow → List RunRow
finish_aborted now id =
    update_run id always (λ r. record r { finished_at = some (or_else r.finished_at now) })

unfoldable pub valid_spec : RunSpec → Bool
valid_spec spec = not (spec.pipeline === "") && not (spec.model === "")

-- Sets and maps of runs, in the order of insertion.
unfoldable pub has : ℕ → List ℕ → Bool
has n ns = any (λ m. m == n) ns

unfoldable pub add : ℕ → List ℕ → List ℕ
unfolding has
add n ns = if has n ns then ns else ns ++ n ∷ []

unfoldable pub remove : ℕ → List ℕ → List ℕ
remove n [] = []
remove n (m ∷ ns) = let rest = remove n ns in if m == n then rest else m ∷ rest

-- `splice` at the first index of a run, if it is there.
unfoldable pub splice : ℕ → List ℕ → List ℕ
splice n [] = []
splice n (m ∷ ns) = let rest = splice n ns in if m == n then ns else m ∷ rest

unfoldable pub lookup : {V : Type 0} → ℕ → List (ℕ × V) → Option V
lookup n [] = none
lookup n ((m, v) ∷ ms) = let rest = lookup n ms in if m == n then some v else rest

unfoldable pub forget : {V : Type 0} → ℕ → List (ℕ × V) → List (ℕ × V)
forget n [] = []
forget n ((m, v) ∷ ms) = let rest = forget n ms in if m == n then ms else (m, v) ∷ rest

-- How an execution ends.
pub data Ending : Type 0 where
  completing failing aborting : Ending

-- A row of `audit_log` that an execution writes.
pub record AuditRow : Type 0 where
  pub run_id : ℕ
  pub action : Ending
  pub cost_micro_usd : ℕ

-- What waits: a call, or an execution, at each `await` of its code. A call that reads a row goes on
-- with the status it read.
pub data Task : Type 0 where
  -- createRun
  inserts : (id : ℕ) → RunSpec → Task
  enqueues : (id : ℕ) → Task
  -- pause
  pause_reads pause_parks : (id : ℕ) → Task
  pause_flags : (id : ℕ) → RunStatus → Task
  -- resume
  resume_reads resume_requeues resume_pumps : (id : ℕ) → Task
  resume_flags resume_wakes : (id : ℕ) → RunStatus → Task
  -- cancel
  cancel_reads cancel_writes cancel_stops : (id : ℕ) → Task
  -- close, with the runs that it has still to go through
  close_queued close_running : List ℕ → Task
  close_queued_writes close_running_writes : (id : ℕ) → List ℕ → Task
  -- executeRun, checkpoint and pauseAndWait; `waiter` is the promise of the pause
  starts started works resumes resumed : (id : ℕ) → Task
  yields yielded parks acquires : (id waiter : ℕ) → Task
  ends audits : (id : ℕ) → Ending → Task
  leaves : (id : ℕ) → Task

pub record Scheduler : Type 0 where
  pub rows : List RunRow
  pub audit_log : List AuditRow
  pub queue : List ℕ
  pub specs : List ℕ
  pub executions : List ℕ
  pub slot_owners : List ℕ
  pub pause_requests : List ℕ
  pub cancelled_runs : List ℕ
  -- run and waiter
  pub resume_waiters : List (ℕ × ℕ)
  -- waiters that are released
  pub released : List ℕ
  pub sem : Semaphore
  -- what the semaphore has answered, and the waiter has not yet seen
  pub answers : List (ℕ × Bool)
  pub closed : Bool
  pub next_waiter : ℕ
  pub tasks : List Task

abbrev pub spawn : Task → Scheduler → Scheduler
spawn t st = record st { tasks = t ∷ st.tasks }

-- `this.cancelled.has(id) || this.closed`
abbrev pub is_stopped : ℕ → Scheduler → Bool
is_stopped id st = has id st.cancelled_runs || st.closed

abbrev answered : Option ℕ → List (ℕ × Bool) → List (ℕ × Bool)
answered none answers = answers
answered (some waiter) answers = (waiter, true) ∷ answers

-- `semaphore.release()`
unfoldable pub release_slot : Scheduler → Scheduler
release_slot st =
    let (sem, next) = release st.sem in record st { sem = sem; answers = answered next st.answers }

-- The first queued run whose pause is not requested.
unfoldable pub startable : List ℕ → List ℕ → Option ℕ
startable pauses [] = none
startable pauses (id ∷ ids) =
    let rest = startable pauses ids in if has id pauses then rest else some id

-- `executeRun` up to its first `await`. Without a specification it fails there, outside its `try`.
unfoldable pub begin_execution : ℕ → Scheduler → Scheduler
begin_execution id st = record st {
  queue = splice id st.queue;
  slot_owners = add id st.slot_owners;
  executions = add id st.executions;
  tasks = if has id st.specs then starts id ∷ st.tasks else st.tasks;
}

-- One round of `pump`: `none` where its loop ends.
unfoldable pub start_next : Scheduler → Option Scheduler
unfolding startable
start_next st =
    let (sem, taken) = try_acquire st.sem in
    elim (startable st.pause_requests st.queue) [
      | none ↦ none
      | some id ↦ if taken then some (begin_execution id (record st { sem = sem })) else none
    ]

-- The loop of `pump`; each round takes a run off the queue, so its length is fuel enough.
unfoldable pub pump_loop : ℕ → Scheduler → Scheduler
unfolding start_next
pump_loop ℕ.zero st = st
pump_loop (suc fuel) st = elim (start_next st) [ none ↦ st | some st' ↦ pump_loop fuel st' ]

unfoldable pub pump : Scheduler → Scheduler
pump st = if st.closed then st else pump_loop (length st.queue) st

-- The release of the waiter of a run, if it has one.
unfoldable pub wake : ℕ → Scheduler → Scheduler
wake id st = elim (lookup id st.resume_waiters) [
  | none ↦ st
  | some waiter ↦ record st {
    resume_waiters = forget id st.resume_waiters;
    released = add waiter st.released;
  }
]

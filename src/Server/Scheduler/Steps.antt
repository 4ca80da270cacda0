-- ===== src/Server/Scheduler/Steps.antt =====
-- What each waiting call and execution of src/server/scheduler.ts does when it goes on. The write
-- queue runs writes in their order; here a write may run at any moment after it is asked for, which
-- allows every order that the queue does.
pub mod Finality
pub mod Counts
pub mod Capacity
pub mod Sameness
pub mod Slots
pub mod Queueing
pub mod Firing
pub mod Histories
use decompi.Base.{
  ℕ, zero, suc, ◌+◌, Bool, true, false, not, ◌&&◌, ◌||◌, List, [], ◌∷◌, ◌++◌, Option, none, some,
  or_else, if◌then◌else◌, ℕ_discrete,
}
use decompi.Core.Store.{query, insert_ignore, update_where}
use decompi.Server.Semaphore.{Semaphore, semaphore, acquire, close}
use decompi.Server.Scheduler.{
  RunStatus, RunSpec, RunRow, Ending, AuditRow, Task, Scheduler, queued, running, paused, done,
  failed, cancelled, is_queued, is_running, is_paused, is_cancelled, is_terminal, row_of_run,
  update_run, always, mark_running, finish_aborted, valid_spec, has, add, remove, splice, lookup,
  forget, completing, failing, aborting, spawn, is_stopped, release_slot, pump, wake, inserts,
  enqueues, pause_reads, pause_flags, pause_parks, resume_reads, resume_flags, resume_wakes,
  resume_requeues, resume_pumps, cancel_reads, cancel_writes, cancel_stops, close_queued,
  close_queued_writes, close_running, close_running_writes, starts, started, works, resumes,
  resumed, yields, yielded, parks, acquires, ends, audits, leaves,
}

-- What the pipeline does next: reach a step's boundary, return, or throw.
pub data Choice : Type 0 where
  boundary returns throws : Choice

-- The time, the choice, and what the run has spent so far.
pub record Moment : Type 0 where
  pub now : ℕ
  pub choice : Choice
  pub spent : ℕ

-- `pauseAndWait` up to its first `await`.
unfoldable pub pause_and_wait : ℕ → Scheduler → Scheduler
pause_and_wait id st =
    let waiter = st.next_waiter in
    let st' = wake id st in
    let st'' : Scheduler = record st' { next_waiter = suc waiter } in
    if is_stopped id st
    then spawn (resumed id) st''
    else spawn (yields id waiter)
        (record st'' { resume_waiters = (id, waiter) ∷ st'.resume_waiters })

unfoldable pub checkpoint : ℕ → Scheduler → Scheduler
checkpoint id st =
    let waiting = pause_and_wait id st in
    if is_stopped id st
    then spawn (ends id aborting) st
    else if has id st.pause_requests
    then waiting
    else spawn (works id) st

-- The end of the pipeline, unless the run was stopped meanwhile.
unfoldable pub conclude : ℕ → Ending → Scheduler → Scheduler
conclude id ending st =
    if is_stopped id st
    then spawn (ends id aborting) st
    else spawn (ends id ending) (record st { pause_requests = remove id st.pause_requests })

unfoldable pub work : Choice → ℕ → Scheduler → Scheduler
work boundary id st = checkpoint id st
work returns id st = conclude id completing st
work throws id st = conclude id failing st

-- The last write of an execution to its row.
unfoldable pub settle : ℕ → ℕ → Ending → List RunRow → List RunRow
settle now id completing =
    update_run id (λ s. not (is_cancelled s))
      (λ r. record r { status = done; pause_requested = false; finished_at = some now })
settle now id failing =
    update_run id (λ s. not (is_cancelled s))
      (λ r. record r { status = failed; pause_requested = false; finished_at = some now })
settle now id aborting = finish_aborted now id

-- A parked execution whose waiter was released asks for a slot.
unfoldable pub ask_slot : ℕ → ℕ → Scheduler → Scheduler
ask_slot id waiter st =
    let (sem, got) = acquire waiter st.sem in
    if is_stopped id st
    then spawn (resumed id) st
    else spawn (acquires id waiter) (record st {
      sem = sem;
      answers = elim got [ none ↦ st.answers | some b ↦ (waiter, b) ∷ st.answers ];
    })

-- The semaphore has answered.
unfoldable pub take_slot : ℕ → Bool → Scheduler → Scheduler
take_slot id granted st =
    let returned = release_slot st in
    if granted
    then if is_stopped id st
      then spawn (resumed id) returned
      else spawn (resumes id) (record st { slot_owners = add id st.slot_owners })
    else spawn (resumed id) st

-- The `finally` of `executeRun`.
unfoldable pub leave : ℕ → Scheduler → Scheduler
leave id st =
    let left : Scheduler = record st {
      executions = remove id st.executions;
      cancelled_runs = remove id st.cancelled_runs;
      pause_requests = remove id st.pause_requests;
      specs = remove id st.specs;
      slot_owners = remove id st.slot_owners;
    } in
    let freed = release_slot left in pump (if has id st.slot_owners then freed else left)

-- A row as createRun inserts it.
abbrev pub new_row : ℕ → ℕ → RunSpec → RunRow
new_row now id spec = record {
  id = id;
  spec = spec;
  status = queued;
  pause_requested = false;
  created_at = now;
  started_at = none;
  finished_at = none;
}

abbrev pub with_rows : (List RunRow → List RunRow) → Scheduler → Scheduler
with_rows f st = record st { rows = f st.rows }

-- The status that a call read from a row, where there is a row.
abbrev pub on_status : Option RunRow → (RunStatus → Scheduler) → Scheduler → Scheduler
on_status none f st = st
on_status (some r) f st = f r.status

-- The second half of `resume`.
unfoldable pub resume_run : ℕ → RunStatus → Scheduler → Scheduler
resume_run id status st =
    let requeued : Scheduler = record st { specs = add id st.specs; queue = add id st.queue } in
    elim (lookup id st.resume_waiters) [
      | some _ ↦ wake id st
      | none ↦ if is_paused status then spawn (resume_requeues id) requeued else st
    ]

abbrev pub release_all : List (ℕ × ℕ) → List ℕ → List ℕ
release_all [] released = released
release_all ((id, waiter) ∷ ws) released = add waiter (release_all ws released)

abbrev pub refuse_all : List ℕ → List (ℕ × Bool) → List (ℕ × Bool)
refuse_all [] answers = answers
refuse_all (waiter ∷ ws) answers = (waiter, false) ∷ refuse_all ws answers

abbrev is_done_or_failed : RunStatus → Bool
is_done_or_failed done = true
is_done_or_failed failed = true
is_done_or_failed _ = false

-- A task goes on, taken off the scheduler's tasks.
unfoldable pub fire : Moment → Task → Scheduler → Scheduler
fire m (inserts id spec) st =
    spawn (enqueues id)
      (with_rows (λ rows. (insert_ignore ℕ_discrete (λ r. r.id) (new_row m.now id spec) rows).0) st)
fire m (enqueues id) st = pump (record st { specs = add id st.specs; queue = st.queue ++ id ∷ [] })
fire m (pause_reads id) st =
    on_status (row_of_run id st.rows)
      (λ s.
        if is_terminal s
        then st
        else spawn (pause_flags id s) (record st { pause_requests = add id st.pause_requests }))
      st
fire m (pause_flags id status) st =
    let st' = with_rows (update_run id always (λ r. record r { pause_requested = true })) st in
    if is_queued status then spawn (pause_parks id) st' else st'
fire m (pause_parks id) st =
    with_rows (update_run id is_queued (λ r. record r { status = paused })) st
fire m (resume_reads id) st =
    on_status (row_of_run id st.rows)
      (λ s. spawn (resume_flags id s) (record st { pause_requests = remove id st.pause_requests }))
      st
fire m (resume_flags id status) st =
    spawn (resume_wakes id status)
      (with_rows (update_run id always (λ r. record r { pause_requested = false })) st)
fire m (resume_wakes id status) st = resume_run id status st
fire m (resume_requeues id) st =
    spawn (resume_pumps id)
      (with_rows (update_run id is_paused (λ r. record r { status = queued })) st)
fire m (resume_pumps id) st = pump st
fire m (cancel_reads id) st =
    on_status (row_of_run id st.rows)
      (λ s.
        if is_terminal s
        then st
        else spawn (cancel_writes id) (record st { cancelled_runs = add id st.cancelled_runs }))
      st
fire m (cancel_writes id) st = spawn (cancel_stops id) (
    with_rows (update_run id always (λ r. record r { status = cancelled; pause_requested = false }))
      st)
fire m (cancel_stops id) st = wake id (record st { queue = splice id st.queue })
fire m (close_queued []) st = spawn (close_running st.executions) st
fire m (close_queued (id ∷ ids)) st = spawn (close_queued_writes id ids) (record st {
  cancelled_runs = add id st.cancelled_runs;
  pause_requests = remove id st.pause_requests;
  specs = remove id st.specs;
})
fire m (close_queued_writes id ids) st = spawn (close_queued ids) (
    with_rows (update_run id always (λ r. record r { status = cancelled; pause_requested = false }))
      st)
fire m (close_running []) st =
    let (sem, refused) = close st.sem in
    record st {
      resume_waiters = [];
      released = release_all st.resume_waiters st.released;
      sem = sem;
      answers = refuse_all refused st.answers;
    }
fire m (close_running (id ∷ ids)) st =
    spawn (close_running_writes id ids) (record st { cancelled_runs = add id st.cancelled_runs })
fire m (close_running_writes id ids) st = spawn (close_running ids) (
    with_rows
      (update_run id (λ s. not (is_done_or_failed s))
        (λ r. record r { status = cancelled; pause_requested = false }))
      st)
fire m (starts id) st = spawn (started id) (with_rows (mark_running m.now id) st)
fire m (started id) st = checkpoint id st
fire m (works id) st = work m.choice id st
fire m (yields id waiter) st =
    spawn (yielded id waiter)
      (with_rows (update_run id is_running (λ r. record r { status = paused })) st)
fire m (yielded id waiter) st =
    pump (
      spawn (parks id waiter) (release_slot (record st { slot_owners = remove id st.slot_owners })))
fire m (parks id waiter) st =
    let asked = ask_slot id waiter st in
    if has waiter st.released then asked else spawn (parks id waiter) st
fire m (acquires id waiter) st = elim (lookup waiter st.answers) [
  | none ↦ spawn (acquires id waiter) st
  | some granted ↦ take_slot id granted (record st { answers = forget waiter st.answers })
]
fire m (resumes id) st = spawn (resumed id) (with_rows (mark_running m.now id) st)
fire m (resumed id) st =
    if is_stopped id st then spawn (ends id aborting) st else spawn (works id) st
fire m (ends id ending) st = spawn (audits id ending) (with_rows (settle m.now id ending) st)
fire m (audits id ending) st = spawn (leaves id) (record st {
  audit_log = record { run_id = id; action = ending; cost_micro_usd = m.spent } ∷ st.audit_log;
})
fire m (leaves id) st = leave id st

-- What happens to a scheduler: a call, or the next step of the task at an index.
pub data Op : Type 0 where
  -- with the UUID that the call draws
  creates : (id : ℕ) → RunSpec → Op
  pauses resumes_run cancels : (id : ℕ) → Op
  closes : Op
  advances : (i : ℕ) → Moment → Op

-- The task at an index, and the others.
unfoldable pub take_task : ℕ → List Task → Option (Task × List Task)
take_task i [] = none
take_task zero (t ∷ ts) = some (t, ts)
take_task (suc i) (t ∷ ts) = elim (take_task i ts) [ none ↦ none | some (u, us) ↦ some (u, t ∷ us) ]

-- A call of a scheduler that is not closed.
unfoldable pub call : Task → Scheduler → Scheduler
call t st = if st.closed then st else spawn t st

unfoldable pub step : Scheduler → Op → Scheduler
step st (creates id spec) =
    let created = call (inserts id spec) st in if valid_spec spec then created else st
step st (pauses id) = call (pause_reads id) st
step st (resumes_run id) = call (resume_reads id) st
step st (cancels id) = call (cancel_reads id) st
step st closes =
    let closing = spawn (close_queued st.queue) (record st { closed = true; queue = [] }) in
    if st.closed then st else closing
step st (advances i m) = elim (take_task i st.tasks) [
  | none ↦ st
  | some (t, ts) ↦ fire m t (record st { tasks = ts })
]

unfoldable pub run : Scheduler → List Op → Scheduler
unfolding step
run st [] = st
run st (op ∷ ops) = run (step st op) ops

-- The ids of rows.
abbrev pub ids_of : List RunRow → List ℕ
ids_of [] = []
ids_of (r ∷ rs) = r.id ∷ ids_of rs

-- The constructor, and the recovery of the rows that an earlier scheduler left, which is the first write
-- of the queue. `closed`: the scheduler was closed between the two; its `close` found nothing queued.
unfoldable pub recover : (max_parallel_runs : ℕ) → (closed : Bool) → List RunRow → Scheduler
recover capacity closed rows =
    let rows' =
      (update_where (λ r. is_running r.status) (λ r. record r { status = paused }) rows).0 in
    let stale = ids_of (query (λ r. is_queued r.status) rows') in
    pump (record {
      rows = rows';
      audit_log = [];
      queue = stale;
      specs = stale;
      executions = [];
      slot_owners = [];
      pause_requests = [];
      cancelled_runs = [];
      resume_waiters = [];
      released = [];
      sem = semaphore capacity;
      answers = [];
      closed = closed;
      next_waiter = 0;
      tasks = if closed then close_queued [] ∷ [] else [];
    })

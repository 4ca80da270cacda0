-- ===== src/Tests/Scheduling.antt =====
-- Histories of the scheduler of src/server/scheduler.ts.
use decompi.Base.{
  ◌⊎◌, str_dec, ℕ_discrete, ℕ, ◌+◌, ◌≤◌, ◌≡◌, refl, true, false, List, [], ◌∷◌, ◌++◌, Option, none,
  some, length, arith,
}
use decompi.Core.Store.{query, update_where, find, insert_ignore}
use decompi.Server.Semaphore.{try_acquire, acquire, release}
use decompi.Server.Scheduler.{
  RunSpec, RunRow, Scheduler, queued, running, done, cancelled, RunStatus, row_of_run, update_run,
  mark_running, finish_aborted, valid_spec, has, add, remove, splice, lookup, forget, release_slot,
  startable, begin_execution, start_next, pump_loop, pump, wake,
}
use decompi.Server.Scheduler.Pumping.{IsExhausted, pump-IsExhausted}
use decompi.Server.Scheduler.Steps.{
  Op, boundary, returns, creates, pauses, resumes_run, cancels, advances, run, recover, step, call,
  fire, take_task, checkpoint, pause_and_wait, resume_run, ask_slot, take_slot, work, conclude,
  settle, leave,
}
use decompi.Server.Scheduler.Steps.Counts.{sum, executing, available, count}
use decompi.Server.Scheduler.Steps.Finality.{Later, run-Later}
use decompi.Server.Scheduler.Steps.Histories.{is_calm, run-slots}

abbrev asm_spec : RunSpec
asm_spec = record { pipeline = "match"; model = "mock"; budget_micro_usd = none }

-- The task at an index goes on; its pipeline reaches a boundary, or returns.
abbrev goes_on : ℕ → Op
goes_on i = advances i (record { now = 5; choice = boundary; spent = 0 })

abbrev returns_at : ℕ → Op
returns_at i = advances i (record { now = 9; choice = returns; spent = 3 })

-- Run 1 starts, and is parked.
abbrev parked_ops : List Op
parked_ops =
    creates 1 asm_spec
    ∷ goes_on 0
    ∷ goes_on 0
    ∷ goes_on 0
    ∷ goes_on 0
    ∷ pauses 1
    ∷ goes_on 0
    ∷ goes_on 0
    ∷ goes_on 0
    ∷ goes_on 0
    ∷ goes_on 0
    ∷ []

-- Two calls of `resume` at once: both read `paused`, and the second finds no waiter.
abbrev resumed_twice_ops : List Op
resumed_twice_ops =
    resumes_run 1
    ∷ resumes_run 1
    ∷ goes_on 0
    ∷ goes_on 1
    ∷ goes_on 0
    ∷ goes_on 1
    ∷ goes_on 0
    ∷ goes_on 0
    ∷ goes_on 0
    ∷ goes_on 0
    ∷ goes_on 1
    ∷ goes_on 0
    ∷ []

abbrev resumed_twice : Scheduler
resumed_twice = run (recover 2 false []) (parked_ops ++ resumed_twice_ops)

-- The run then has two executions, and one of the two slots belongs to nobody.
test_resumed_twice :
    (sum (executing 1) resumed_twice.tasks ≡ 2)
    × (available resumed_twice ≡ 0)
    × (length resumed_twice.slot_owners ≡ 1)
unfolding run recover pump pump_loop start_next startable begin_execution try_acquire has add remove
    splice lookup forget wake step call fire take_task valid_spec insert_ignore update_run query
    update_where find mark_running str_dec ℕ_discrete checkpoint pause_and_wait release_slot release
    resume_run ask_slot acquire take_slot work conclude settle finish_aborted leave
test_resumed_twice = (refl, refl, refl)

test_resumed_twice_calm : is_calm (recover 2 false []) (parked_ops ++ resumed_twice_ops) ≡ false
unfolding is_calm run recover pump pump_loop start_next startable begin_execution try_acquire has
    add remove splice lookup forget wake step call fire take_task valid_spec insert_ignore
    update_run query update_where find mark_running str_dec ℕ_discrete checkpoint pause_and_wait
    release_slot release resume_run ask_slot acquire take_slot work conclude settle finish_aborted
    leave
test_resumed_twice_calm = refl

-- A call of `cancel` reads `running` before the run is done, and writes after it.
abbrev late_cancel_ops : List Op
late_cancel_ops =
    creates 1 asm_spec
    ∷ goes_on 0
    ∷ goes_on 0
    ∷ goes_on 0
    ∷ goes_on 0
    ∷ returns_at 0
    ∷ cancels 1
    ∷ goes_on 0
    ∷ returns_at 1
    ∷ goes_on 1
    ∷ goes_on 0
    ∷ []

status_of : Option RunRow → Option RunStatus
status_of none = none
status_of (some r) = some r.status

test_late_cancel :
    (status_of (
        row_of_run 1
          (run (recover 2 false []) (
            creates 1 asm_spec
            ∷ goes_on 0
            ∷ goes_on 0
            ∷ goes_on 0
            ∷ goes_on 0
            ∷ returns_at 0
            ∷ cancels 1
            ∷ goes_on 0
            ∷ returns_at 1
            ∷ [])).rows)
      ≡ some done)
    × (status_of (row_of_run 1 (run (recover 2 false []) late_cancel_ops).rows) ≡ some cancelled)
unfolding status_of run recover pump pump_loop start_next startable begin_execution try_acquire has
    add remove splice lookup forget wake step call fire take_task valid_spec insert_ignore
    update_run query update_where find mark_running str_dec ℕ_discrete checkpoint pause_and_wait
    release_slot release resume_run ask_slot acquire take_slot work conclude settle finish_aborted
    leave
test_late_cancel = (refl, refl)

-- One slot: run 7 is left from before, run 1 is paused, gives its slot to run 7, and gets it back.
abbrev stale_row : RunRow
stale_row = record {
  id = 7;
  spec = asm_spec;
  status = queued;
  pause_requested = false;
  created_at = 1;
  started_at = none;
  finished_at = none;
}

abbrev turns : List Op
turns =
    creates 1 asm_spec
    ∷ goes_on 0
    ∷ goes_on 0
    ∷ goes_on 0
    ∷ goes_on 0
    ∷ returns_at 0
    ∷ goes_on 0
    ∷ goes_on 0
    ∷ goes_on 0
    ∷ goes_on 0
    ∷ pauses 1
    ∷ goes_on 0
    ∷ goes_on 0
    ∷ goes_on 0
    ∷ goes_on 0
    ∷ goes_on 0
    ∷ resumes_run 1
    ∷ goes_on 0
    ∷ goes_on 0
    ∷ goes_on 0
    ∷ goes_on 0
    ∷ goes_on 0
    ∷ goes_on 0
    ∷ []

abbrev after_turns : Scheduler
after_turns = run (recover 1 false (stale_row ∷ [])) turns

test_turns :
    (status_of (row_of_run 7 after_turns.rows) ≡ some done)
    × (status_of (row_of_run 1 after_turns.rows) ≡ some running)
unfolding status_of run recover pump pump_loop start_next startable begin_execution try_acquire has
    add remove splice lookup forget wake step call fire take_task valid_spec insert_ignore
    update_run query update_where find mark_running str_dec ℕ_discrete checkpoint pause_and_wait
    release_slot release resume_run ask_slot acquire take_slot work conclude settle finish_aborted
    leave
test_turns = (refl, refl)

run-slots_example :
    (available after_turns + length after_turns.slot_owners ≡ 1)
    × ((id : ℕ)
        → (count id after_turns.slot_owners ≤ sum (executing id) after_turns.tasks)
          × (sum (executing id) after_turns.tasks + count id after_turns.queue ≤ 1))
unfolding is_calm run recover pump pump_loop start_next startable begin_execution try_acquire has
    add remove splice lookup forget wake step call fire take_task valid_spec insert_ignore
    update_run query update_where find mark_running str_dec ℕ_discrete checkpoint pause_and_wait
    release_slot release resume_run ask_slot acquire take_slot work conclude settle finish_aborted
    leave
run-slots_example = run-slots 1 false (stale_row ∷ []) turns (λ n. ground arith) refl

run-Later_example : (s : RunRow) × (row_of_run 7 after_turns.rows ≡ some s) × Later stale_row s
unfolding run recover pump pump_loop start_next startable begin_execution try_acquire has add remove
    splice lookup forget wake step call fire take_task valid_spec insert_ignore update_run query
    update_where find mark_running str_dec ℕ_discrete checkpoint pause_and_wait release_slot release
    resume_run ask_slot acquire take_slot work conclude settle finish_aborted leave
run-Later_example = run-Later turns (recover 1 false (stale_row ∷ [])) 7 stale_row refl

abbrev two_queued : Scheduler
two_queued = record (recover 1 false []) { queue = 3 ∷ 4 ∷ []; specs = 3 ∷ 4 ∷ [] }

pump-IsExhausted_example : (two_queued.closed ≡ true) ⊎ IsExhausted (pump two_queued)
pump-IsExhausted_example = pump-IsExhausted two_queued

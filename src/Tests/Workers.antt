-- ===== src/Tests/Workers.antt =====
-- A worker pool with two slots, and a semaphore with two.
use decompi.Base.{◌==◌, ◌+◌, ◌*◌, ◌≤◌, ◌≡◌, refl, false, List, [], ◌∷◌, none, some, All}
use decompi.Core.Worker.{
  close, handle, at_slot, request, pump, pump_queue, assign, dispatch, on_timeout, on_exit, on_line,
  crash, spawn_failure, resolved, Slot, Pool, System, Event, run, requests, timeouts, exits, lines,
  envelope, closes,
}
use decompi.Core.Worker.Attempts.{IsBounded}
use decompi.Core.Worker.Tries.{writes, allowance, run-writes}
use decompi.Core.Worker.Dispatching.{total, IsSound}
use decompi.Core.Worker.Conservation.{asked_all, run-total}

abbrev idle : Slot
idle = record { proc = none; busy = false; current = none }

abbrev pool : Pool
pool = record {
  slots = idle ∷ idle ∷ [];
  queue = [];
  next_id = 0;
  next_proc = 0;
  closed = false;
  settled = [];
  sent = [];
}

-- Processes work, but for process 2, whose spawn fails.
abbrev system : System
system = record { has_exited = λ p. false; spawn_throws = λ p. p == 2; write_throws = λ p. false }

-- Later, process 0 has exited.
abbrev later : System
later = record system { has_exited = λ p. p == 0 }

-- Three requests to two workers: the spawn for the second try of the first fails, the worker of the
-- second dies, and the third is answered.
abbrev history : List (System × Event)
history =
    (system, requests 0 "a")
    ∷ (system, requests 1 "b")
    ∷ (system, requests 2 "c")
    ∷ (system, timeouts 0 0)
    ∷ (later, exits 1 1)
    ∷ (later, lines 0 3 (envelope (some 2) none (some "ok")))
    ∷ (later, closes)
    ∷ []

run-total_example :
    (total 0 (run pool history) ≡ total 0 pool + asked_all 0 history)
    × All IsSound (run pool history).slots
run-total_example = run-total pool history 0 (refl, (refl, tt))

run-writes_example :
    (writes 0 (run pool history).sent ≤ allowance 0 pool + 2 * asked_all 0 history)
    × IsBounded (run pool history)
run-writes_example =
    run-writes pool history 0 (record { waiting = tt; tried = (tt, (tt, tt)); ended = tt })

-- A process that served a request is found dead at the next one, which gets a new process.
abbrev dead_later : List (System × Event)
dead_later =
    (system, requests 0 "a")
    ∷ (system, lines 0 0 (envelope (some 0) none (some "ok")))
    ∷ (later, requests 1 "b")
    ∷ (later, lines 0 1 (envelope (some 1) none (some "fine")))
    ∷ []

test_dead_later : (run pool dead_later).settled ≡ (0, resolved "ok") ∷ (1, resolved "fine") ∷ []
unfolding run handle at_slot request pump pump_queue assign dispatch on_line
test_dead_later = refl

history_outcomes :
    (run pool history).settled ≡ (0, spawn_failure) ∷ (1, crash) ∷ (2, resolved "ok") ∷ []
unfolding run close handle at_slot request pump pump_queue assign dispatch on_timeout on_exit
    on_line
history_outcomes = refl

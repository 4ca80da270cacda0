-- ===== src/Server/Scheduler/Steps/Firing.antt =====
-- That every step of a call or an execution of src/server/scheduler.ts keeps the count of the slots.
use decompi.Base.{
  ◌==◌, ◌||◌, not, ℕ, ◌+◌, ◌≡◌, refl, Bool, true, [], ◌∷◌, Option, none, some, arith, if◌then◌else◌,
}
use decompi.Server.Scheduler.{
  splice, is_queued, is_terminal, is_paused, row_of_run, forget, add, lookup, Task, Scheduler,
  RunStatus, has, spawn, is_stopped, wake, aborting, inserts, enqueues, pause_reads, pause_flags,
  pause_parks, resume_reads, resume_flags, resume_wakes, resume_requeues, resume_pumps,
  cancel_reads, cancel_writes, cancel_stops, close_queued, close_queued_writes, close_running,
  close_running_writes, starts, started, works, resumes, resumed, yields, yielded, parks, acquires,
  ends, audits, leaves,
}
use decompi.Server.Scheduler.Steps.{Moment, fire, take_slot, resume_run}
use decompi.Server.Scheduler.Steps.Counts.{executing, arriving, going, sum}
use decompi.Server.Scheduler.Steps.Capacity.{
  follows, IsSafe, Follows, Same, move, drop, keep, join, pump-IsSafe,
}
use decompi.Server.Scheduler.Steps.Sameness.{
  audit-Same, closing-Same, splice-Same, rows-Same, wake-Same, pause-Same, cancel-Same, closed-Same,
}
use decompi.Server.Scheduler.Steps.Slots.{
  either-IsSafe, test-IsSafe, read-IsSafe, checkpoint-IsSafe, work-IsSafe, yielded-IsSafe,
  ask_slot-IsSafe, take_slot-IsSafe, resumed-IsSafe,
}
use decompi.Server.Scheduler.Steps.Queueing.{leave-IsSafe, enqueue-IsSafe, requeue-IsSafe}

-- No execution of a run, and no call that is about to queue it.
abbrev pub is_idle : ℕ → Scheduler → Bool
is_idle id st = (sum (executing id) st.tasks + sum (arriving id) st.tasks) == 0

-- A second half of `resume` that puts a run back on the queue does so for a run that is idle.
abbrev pub is_calm_task : Task → Scheduler → Bool
is_calm_task (resume_wakes id s) st = elim (lookup id st.resume_waiters) [
  | some _ ↦ true
  | none ↦ not (is_paused s) || is_idle id st
]
is_calm_task _ st = true

module _ (capacity : ℕ) where
  -- A call that ends, or reads on.
  quiet-IsSafe :
      (t u : Task) (st st' : Scheduler)
      → Follows t u
      → ((n : ℕ) → going n u ≡ 0)
      → Same st st'
      → IsSafe capacity (spawn t st)
      → IsSafe capacity (spawn u st')
  quiet-IsSafe t u st st' f g same h = move capacity t u st st' f (λ n e. omega (arith, g n)) same h

  resume_run-IsSafe :
      (id : ℕ) (s : RunStatus) (st : Scheduler)
      → is_calm_task (resume_wakes id s) st ≡ true
      → IsSafe capacity st
      → IsSafe capacity (resume_run id s st)
  unfolding resume_run
  resume_run-IsSafe id s st e h = go (lookup id st.resume_waiters) e
    where
      after : Option ℕ → Scheduler
      after none =
          if is_paused s
          then spawn (resume_requeues id)
              (record st { queue = add id st.queue; specs = add id st.specs })
          else st
      after (some w) = wake id st

      go :
          (o : Option ℕ)
          → elim o as (λ _. Bool) [ some _ ↦ true | none ↦ not (is_paused s) || is_idle id st ]
            ≡ true
          → IsSafe capacity (after o)
      go (some w) k = keep capacity st _ (wake-Same id st) h
      go none k =
          test-IsSafe capacity (is_paused s) _ _
            (λ c.
              join capacity (resume_requeues id) _ (λ n. refl) (λ n. refl) (λ n. refl) (λ n. refl)
                (λ n. refl) refl (requeue-IsSafe capacity id st (ground arith) h))
            (λ c. h)

  answer-IsSafe :
      (id waiter : ℕ) (st : Scheduler)
      → IsSafe capacity (spawn (acquires id waiter) st)
      → (m : Moment) → IsSafe capacity (fire m (acquires id waiter) st)
  unfolding fire
  answer-IsSafe id waiter st h m =
      go (lookup waiter st.answers) (λ b e. take_slot-IsSafe capacity id waiter b st e h)
    where
      after : Option Bool → Scheduler
      after none = spawn (acquires id waiter) st
      after (some b) = take_slot id b (record st { answers = forget waiter st.answers })

      go :
          (o : Option Bool)
          → ((b : Bool) → o ≡ some b → IsSafe capacity (after (some b)))
          → IsSafe capacity (after o)
      go none k = h
      go (some b) k = k b refl

  pub fire-IsSafe :
      (m : Moment) (t : Task) (st : Scheduler)
      → is_calm_task t st ≡ true
      → IsSafe capacity (spawn t st)
      → IsSafe capacity (fire m t st)
  unfolding fire
  fire-IsSafe m (inserts id spec) st e h =
      move capacity (inserts id spec) (enqueues id) st _
        (follows _ _ (λ n. ground arith) (omega arith)) (λ n c. omega arith) (rows-Same _ st) h
  fire-IsSafe m (enqueues id) st e h = pump-IsSafe capacity _ (enqueue-IsSafe capacity id st h)
  fire-IsSafe m (pause_reads id) st e h =
      let alone = drop capacity (pause_reads id) st (λ n. refl) h in
      read-IsSafe capacity (row_of_run id st.rows) _ st
        (λ s. either-IsSafe capacity (is_terminal s) _ _ alone (
          quiet-IsSafe (pause_reads id) (pause_flags id s) st _
            (follows _ _ (λ n. ground arith) (omega arith)) (λ n. refl) (pause-Same _ st) h))
        alone
  fire-IsSafe m (pause_flags id status) st e h =
      either-IsSafe capacity (is_queued status) _ _
        (quiet-IsSafe (pause_flags id status) (pause_parks id) st _
          (follows _ _ (λ n. ground arith) (omega arith)) (λ n. refl) (rows-Same _ st) h)
        (keep capacity st _ (rows-Same _ st)
          (drop capacity (pause_flags id status) st (λ n. refl) h))
  fire-IsSafe m (pause_parks id) st e h =
      keep capacity st _ (rows-Same _ st) (drop capacity (pause_parks id) st (λ n. refl) h)
  fire-IsSafe m (resume_reads id) st e h =
      read-IsSafe capacity (row_of_run id st.rows) _ st
        (λ s.
          quiet-IsSafe (resume_reads id) (resume_flags id s) st _
            (follows _ _ (λ n. ground arith) (omega arith)) (λ n. refl) (pause-Same _ st) h)
        (drop capacity (resume_reads id) st (λ n. refl) h)
  fire-IsSafe m (resume_flags id status) st e h =
      quiet-IsSafe (resume_flags id status) (resume_wakes id status) st _
        (follows _ _ (λ n. ground arith) (omega arith)) (λ n. refl) (rows-Same _ st) h
  fire-IsSafe m (resume_wakes id status) st e h =
      resume_run-IsSafe id status st e (drop capacity (resume_wakes id status) st (λ n. refl) h)
  fire-IsSafe m (resume_requeues id) st e h =
      quiet-IsSafe (resume_requeues id) (resume_pumps id) st _
        (follows _ _ (λ n. ground arith) (omega arith)) (λ n. refl) (rows-Same _ st) h
  fire-IsSafe m (resume_pumps id) st e h =
      pump-IsSafe capacity st (drop capacity (resume_pumps id) st (λ n. refl) h)
  fire-IsSafe m (cancel_reads id) st e h =
      let alone = drop capacity (cancel_reads id) st (λ n. refl) h in
      read-IsSafe capacity (row_of_run id st.rows) _ st
        (λ s. either-IsSafe capacity (is_terminal s) _ _ alone (
          quiet-IsSafe (cancel_reads id) (cancel_writes id) st _
            (follows _ _ (λ n. ground arith) (omega arith)) (λ n. refl) (cancel-Same id st) h))
        alone
  fire-IsSafe m (cancel_writes id) st e h =
      quiet-IsSafe (cancel_writes id) (cancel_stops id) st _
        (follows _ _ (λ n. ground arith) (omega arith)) (λ n. refl) (rows-Same _ st) h
  fire-IsSafe m (cancel_stops id) st e h =
      keep capacity (record st { queue = splice id st.queue }) _
        (wake-Same id (record st { queue = splice id st.queue }))
        (keep capacity st _ (splice-Same id st) (drop capacity (cancel_stops id) st (λ n. refl) h))
  fire-IsSafe m (close_queued []) st e h =
      quiet-IsSafe (close_queued []) (close_running st.executions) st st
        (follows _ _ (λ n. ground arith) (omega arith)) (λ n. refl) (rows-Same st.rows st) h
  fire-IsSafe m (close_queued (id ∷ ids)) st e h =
      quiet-IsSafe (close_queued (id ∷ ids)) (close_queued_writes id ids) st _
        (follows _ _ (λ n. ground arith) (omega arith)) (λ n. refl)
        (closing-Same id st (λ c. omega (arith, h.opened c))) h
  fire-IsSafe m (close_queued_writes id ids) st e h =
      quiet-IsSafe (close_queued_writes id ids) (close_queued ids) st _
        (follows _ _ (λ n. ground arith) (omega arith)) (λ n. refl) (rows-Same _ st) h
  fire-IsSafe m (close_running []) st e h =
      keep capacity st _ (closed-Same st (λ c. omega (arith, h.opened c)))
        (drop capacity (close_running []) st (λ n. refl) h)
  fire-IsSafe m (close_running (id ∷ ids)) st e h =
      quiet-IsSafe (close_running (id ∷ ids)) (close_running_writes id ids) st _
        (follows _ _ (λ n. ground arith) (omega arith)) (λ n. refl) (cancel-Same id st) h
  fire-IsSafe m (close_running_writes id ids) st e h =
      quiet-IsSafe (close_running_writes id ids) (close_running ids) st _
        (follows _ _ (λ n. ground arith) (omega arith)) (λ n. refl) (rows-Same _ st) h
  fire-IsSafe m (starts id) st e h =
      move capacity (starts id) (started id) st _ (follows _ _ (λ n. ground arith) (omega arith))
        (λ n c. omega arith) (rows-Same _ st) h
  fire-IsSafe m (started id) st e h = checkpoint-IsSafe capacity id st (
      move capacity (started id) (works id) st st (follows _ _ (λ n. ground arith) (omega arith))
        (λ n c. omega arith) (rows-Same st.rows st) h)
  fire-IsSafe m (works id) st e h = work-IsSafe capacity m.choice id st h
  fire-IsSafe m (yields id waiter) st e h =
      move capacity (yields id waiter) (yielded id waiter) st _
        (follows _ _ (λ n. ground arith) (omega arith)) (λ n c. omega arith) (rows-Same _ st) h
  fire-IsSafe m (yielded id waiter) st e h =
      pump-IsSafe capacity _ (yielded-IsSafe capacity id waiter st h)
  fire-IsSafe m (parks id waiter) st e h =
      either-IsSafe capacity (has waiter st.released) _ _ (ask_slot-IsSafe capacity id waiter st h)
        h
  fire-IsSafe m (acquires id waiter) st e h = answer-IsSafe id waiter st h m
  fire-IsSafe m (resumes id) st e h =
      move capacity (resumes id) (resumed id) st _ (follows _ _ (λ n. ground arith) (omega arith))
        (λ n c. omega arith) (rows-Same _ st) h
  fire-IsSafe m (resumed id) st e h =
      test-IsSafe capacity (is_stopped id st) _ _
        (λ c.
          move capacity (resumed id) (ends id aborting) st st
            (follows _ _ (λ n. ground arith) (omega arith)) (λ n c. omega arith)
            (rows-Same st.rows st) h)
        (λ c. resumed-IsSafe capacity id st c h)
  fire-IsSafe m (ends id ending) st e h =
      move capacity (ends id ending) (audits id ending) st _
        (follows _ _ (λ n. ground arith) (omega arith)) (λ n c. omega arith) (rows-Same _ st) h
  fire-IsSafe m (audits id ending) st e h =
      move capacity (audits id ending) (leaves id) st _
        (follows _ _ (λ n. ground arith) (omega arith)) (λ n c. omega arith) (audit-Same _ st) h
  fire-IsSafe m (leaves id) st e h = leave-IsSafe capacity id st h

-- ===== src/Server/Scheduler/Steps/Histories.antt =====
-- That no slot of the scheduler of src/server/scheduler.ts is lost, over every history of calls and steps
-- in which each run is queued once.
use decompi.Core.Store.{query, update_where}
use decompi.Base.{
  ◌==◌, ◌&&◌, sym, ap, inr, inl, ℕ, ◌+◌, ◌≤◌, ◌≡◌, refl, Bool, true, false, List, [], ◌∷◌, Option,
  none, some, arith, length,
}
use decompi.Server.Scheduler.{
  is_running, valid_spec, is_queued, Task, Scheduler, spawn, RunSpec, RunRow, paused, inserts,
  pause_reads, resume_reads, cancel_reads, close_queued,
}
use decompi.Server.Scheduler.Steps.{
  recover, ids_of, creates, pauses, resumes_run, cancels, closes, advances, take_task, call, Op,
  fire, step, run,
}
use decompi.Server.Scheduler.Steps.Counts.{
  take_task-sum, only, count, executing, arriving, closing, going, sum, available,
}
use decompi.Server.Scheduler.Steps.Capacity.{follows, IsSafe, Follows, keep, join, pump-IsSafe}
use decompi.Server.Scheduler.Steps.Slots.{either-IsSafe}
use decompi.Server.Scheduler.Steps.Firing.{is_idle, is_calm_task, fire-IsSafe}

-- A UUID that is drawn is new.
abbrev pub is_calm_step : Scheduler → Op → Bool
is_calm_step st (creates id spec) = is_idle id st && (count id st.queue == 0)
is_calm_step st (advances i m) = elim (take_task i st.tasks) [
  | none ↦ true
  | some (t, ts) ↦ is_calm_task t (record st { tasks = ts })
]
is_calm_step st _ = true

unfoldable pub is_calm : Scheduler → List Op → Bool
unfolding step
is_calm st [] = true
is_calm st (op ∷ ops) = is_calm_step st op && is_calm (step st op) ops

module _ (capacity : ℕ) where
  call-IsSafe :
      (t : Task) (st : Scheduler)
      → IsSafe capacity (spawn t st)
      → IsSafe capacity st
      → IsSafe capacity (call t st)
  unfolding call
  call-IsSafe t st k h = either-IsSafe capacity st.closed _ _ h k

  -- A call that reads first.
  read_call-IsSafe :
      (t : Task) (st : Scheduler)
      → Follows (close_queued []) t
      → ((n : ℕ) → going n t ≡ 0)
      → closing t ≡ 0
      → IsSafe capacity st
      → IsSafe capacity (call t st)
  read_call-IsSafe t st f g c h =
      call-IsSafe t st
        (join capacity t st (λ n. f.executes n) (λ n. omega (arith, f.holds n))
          (λ n. omega (arith, f.parks n)) (λ n. omega (arith, f.arrives n)) g c h)
        h

  create-IsSafe :
      (id : ℕ) (spec : RunSpec) (st : Scheduler)
      → is_calm_step st (creates id spec) ≡ true
      → IsSafe capacity st
      → IsSafe capacity (spawn (inserts id spec) st)
  create-IsSafe id spec st e h = record {
    slots = h.slots;
    fits = λ n.
        let fit = h.fits n in
        record {
          unique =
              elim (only
                (λ k. sum (executing k) st.tasks + sum (arriving k) st.tasks + count k st.queue) id
                n (ground arith)) [ inl o ↦ omega (arith, fit.unique) | inr o ↦ ground arith ];
          held = omega (arith, fit.held);
          owned = omega (arith, fit.owned);
          goes = λ o. omega (arith, fit.goes o);
          listed = fit.listed;
        };
    opened = λ o. omega (arith, h.opened o);
    grants = h.grants;
  }

  close-IsSafe :
      (st : Scheduler)
      → IsSafe capacity st
      → IsSafe capacity (spawn (close_queued st.queue) (record st { closed = true; queue = [] }))
  close-IsSafe st h = record {
    slots = h.slots;
    fits = λ n.
        let fit = h.fits n in
        record {
          unique = omega (arith, fit.unique);
          held = omega (arith, fit.held);
          owned = omega (arith, fit.owned);
          goes = λ e. absurd (ground arith);
          listed = λ e. absurd (ground arith);
        };
    opened = λ e. absurd (ground arith);
    grants = λ e. absurd (ground arith);
  }

  -- The task that goes on is one of the tasks.
  taken-IsSafe :
      (i : ℕ) (t : Task) (ts : List Task) (st : Scheduler)
      → take_task i st.tasks ≡ some (t, ts)
      → IsSafe capacity st
      → IsSafe capacity (spawn t (record st { tasks = ts }))
  taken-IsSafe i t ts st e h =
      keep capacity st _
        (record {
          slots = refl;
          slot_owners = λ n. refl;
          queue = λ n. omega arith;
          specs = λ n c k. k;
          tasks = λ w. sym (take_task-sum w i st.tasks t ts e);
          closed = λ c. c;
          refuses = λ c. omega arith;
          stopped = λ n c. c;
        })
        h

  step-IsSafe :
      (st : Scheduler) (op : Op)
      → is_calm_step st op ≡ true
      → IsSafe capacity st
      → IsSafe capacity (step st op)
  unfolding step
  step-IsSafe st (creates id spec) e h =
      either-IsSafe capacity (valid_spec spec) _ _
        (call-IsSafe (inserts id spec) st (create-IsSafe id spec st e h) h) h
  step-IsSafe st (pauses id) e h =
      read_call-IsSafe (pause_reads id) st (follows _ _ (λ n. ground arith) (omega arith))
        (λ n. refl) refl h
  step-IsSafe st (resumes_run id) e h =
      read_call-IsSafe (resume_reads id) st (follows _ _ (λ n. ground arith) (omega arith))
        (λ n. refl) refl h
  step-IsSafe st (cancels id) e h =
      read_call-IsSafe (cancel_reads id) st (follows _ _ (λ n. ground arith) (omega arith))
        (λ n. refl) refl h
  step-IsSafe st closes e h = either-IsSafe capacity st.closed _ _ h (close-IsSafe st h)
  step-IsSafe st (advances i m) e h =
      go (take_task i st.tasks) e (λ t ts q. taken-IsSafe i t ts st q h)
    where
      after : Option (Task × List Task) → Scheduler
      after none = st
      after (some (t, ts)) = fire m t (record st { tasks = ts })

      go :
          (o : Option (Task × List Task))
          → elim o as (λ _. Bool) [
            | none ↦ true
            | some (t, ts) ↦ is_calm_task t (record st { tasks = ts })
          ]
            ≡ true
          → ((t : Task) (ts : List Task)
              → o ≡ some (t, ts)
              → IsSafe capacity (spawn t (record st { tasks = ts })))
          → IsSafe capacity (after o)
      go none k p = h
      go (some (t, ts)) k p = fire-IsSafe capacity m t (record st { tasks = ts }) k (p t ts refl)

  pub run-IsSafe :
      (ops : List Op) (st : Scheduler)
      → is_calm st ops ≡ true
      → IsSafe capacity st
      → IsSafe capacity (run st ops)
  unfolding run is_calm
  run-IsSafe [] st e h = h
  run-IsSafe (op ∷ ops) st e h =
      run-IsSafe ops (step st op) (ground arith) (step-IsSafe st op (ground arith) h)

-- What the constructor reads back has each id at most once, as the table does.
ids_of-query :
    (n : ℕ) (p : RunRow → Bool) (rows : List RunRow)
    → count n (ids_of (query p rows)) ≤ count n (ids_of rows)
unfolding query
ids_of-query n p [] = omega arith
ids_of-query n p (r ∷ rows) = ground (arith, ids_of-query n p rows)

ids_of-update_where :
    (p : RunRow → Bool) (f : RunRow → RunRow) (rows : List RunRow)
    → ((r : RunRow) → (f r).id ≡ r.id)
    → ids_of (update_where p f rows).0 ≡ ids_of rows
unfolding update_where
ids_of-update_where p f [] h = refl
ids_of-update_where p f (r ∷ rows) h = ground (arith, ids_of-update_where p f rows h, h r)

stale-le :
    (n : ℕ) (rows : List RunRow)
    → count n (ids_of rows) ≤ 1
    → count n (
        ids_of (
          query
            (λ r. is_queued r.status)
            (update_where (λ r. is_running r.status) (λ r. record r { status = paused }) rows).0))
      ≤ 1
stale-le n rows h =
    let f : RunRow → RunRow = λ r. record r { status = paused } in
    omega (
      arith,
      h,
      ids_of-query n (λ r. is_queued r.status) (update_where (λ r. is_running r.status) f rows).0,
      ap (count n) (ids_of-update_where (λ r. is_running r.status) f rows (λ r. refl)),
    )

recover-IsSafe :
    (capacity : ℕ) (closed : Bool) (rows : List RunRow)
    → ((n : ℕ) → count n (ids_of rows) ≤ 1)
    → IsSafe capacity (recover capacity closed rows)
unfolding recover
recover-IsSafe capacity false rows h = pump-IsSafe capacity _ (record {
  slots = omega arith;
  fits = λ n. record {
    unique = omega (arith, stale-le n rows (h n));
    held = omega arith;
    owned = omega arith;
    goes = λ e. omega arith;
    listed = λ e. omega arith;
  };
  opened = λ e. refl;
  grants = λ e. refl;
})
recover-IsSafe capacity true rows h = pump-IsSafe capacity _ (record {
  slots = omega arith;
  fits = λ n. record {
    unique = omega (arith, stale-le n rows (h n));
    held = omega arith;
    owned = omega arith;
    goes = λ e. omega arith;
    listed = λ e. omega arith;
  };
  opened = λ e. absurd (ground arith);
  grants = λ e. absurd (ground arith);
})

-- Over every history from the start of the scheduler, closed before its recovery or not, with rows of
-- distinct ids, in which a UUID that `createRun` draws is new and a `resume` puts back on the queue no
-- run that has an execution: the free slots, the promised ones and those that runs own are always as
-- many as `maxParallelRuns`, so no slot is lost; each run has one execution at most, which owns one slot
-- at most, and one place in the queue at most.
pub run-slots :
    (capacity : ℕ) (closed : Bool) (rows : List RunRow) (ops : List Op)
    → ((n : ℕ) → count n (ids_of rows) ≤ 1)
    → is_calm (recover capacity closed rows) ops ≡ true
    → let st = run (recover capacity closed rows) ops in
      (available st + length st.slot_owners ≡ capacity)
      × ((id : ℕ)
          → (count id st.slot_owners ≤ sum (executing id) st.tasks)
            × (sum (executing id) st.tasks + count id st.queue ≤ 1))
run-slots capacity closed rows ops h e =
    let safe =
      run-IsSafe capacity ops (recover capacity closed rows) e
        (recover-IsSafe capacity closed rows h) in
    (safe.slots, λ id. (omega (arith, (safe.fits id).owned), omega (arith, (safe.fits id).unique)))

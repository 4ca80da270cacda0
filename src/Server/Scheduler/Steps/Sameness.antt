-- ===== src/Server/Scheduler/Steps/Sameness.antt =====
-- Which of the changes that src/server/scheduler.ts makes no count of slots and executions sees.
use decompi.Base.{◌∙◌, sym, ap, ℕ, ◌≡◌, refl, true, false, List, [], ◌∷◌, Option, none, some, arith}
use decompi.Server.Semaphore.{close, acquire, try_acquire}
use decompi.Server.Scheduler.{
  splice, AuditRow, remove, forget, add, lookup, Scheduler, has, wake, release_slot, RunRow,
}
use decompi.Server.Scheduler.Steps.{refuse_all, release_all}
use decompi.Server.Scheduler.Steps.Counts.{
  refuse_all-promised, splice-count, refusing, forget-promised, forget-refusals,
  release_slot-refusing, release_slot-available, add-has_not, count, sum,
}
use decompi.Server.Scheduler.Steps.Capacity.{Same}

-- States that differ in no list that counts, and stop no fewer runs.
Same-of :
    (st st' : Scheduler)
    → st'.sem ≡ st.sem
    → st'.answers ≡ st.answers
    → st'.slot_owners ≡ st.slot_owners
    → st'.queue ≡ st.queue
    → st'.specs ≡ st.specs
    → st'.tasks ≡ st.tasks
    → st'.closed ≡ st.closed
    → ((n : ℕ) → has n st'.cancelled_runs ≡ false → has n st.cancelled_runs ≡ false)
    → Same st st'
Same-of st st' s a o q p t c x = record {
  slots = ground arith;
  slot_owners = λ n. ap (count n) o;
  queue = λ n. ground arith;
  specs = λ n e h. ground arith;
  tasks = λ w. ap (sum w) t;
  closed = λ e. sym c ∙ e;
  refuses = λ e. ground arith;
  stopped = λ n e. ground (arith, x n);
}

pub rows-Same : (rows : List RunRow) (st : Scheduler) → Same st (record st { rows = rows })
rows-Same rows st =
    Same-of st (record st { rows = rows }) refl refl refl refl refl refl refl (λ n e. e)

pub wake-Same : (id : ℕ) (st : Scheduler) → Same st (wake id st)
unfolding wake
wake-Same id st = go (lookup id st.resume_waiters)
  where
    after : Option ℕ → Scheduler
    after none = st
    after (some w) = record st {
      resume_waiters = forget id st.resume_waiters;
      released = add w st.released;
    }

    go : (o : Option ℕ) → Same st (after o)
    go none = Same-of st st refl refl refl refl refl refl refl (λ n e. e)
    go (some w) = Same-of st (after (some w)) refl refl refl refl refl refl refl (λ n e. e)

-- A pause takes a waiter for the run in place of one that it has.
pub wait-Same :
    (id k : ℕ) (ws : List (ℕ × ℕ) → List (ℕ × ℕ)) (st : Scheduler)
    → Same st
        (record (wake id st) { resume_waiters = ws (wake id st).resume_waiters; next_waiter = k })
unfolding wake
wait-Same id k ws st = go (lookup id st.resume_waiters)
  where
    after : Option ℕ → Scheduler
    after none = st
    after (some w) = record st {
      resume_waiters = forget id st.resume_waiters;
      released = add w st.released;
    }

    go :
        (o : Option ℕ)
        → Same st
            (record (after o) { resume_waiters = ws (after o).resume_waiters; next_waiter = k })
    go none = Same-of st _ refl refl refl refl refl refl refl (λ n e. e)
    go (some w) = Same-of st _ refl refl refl refl refl refl refl (λ n e. e)

-- A request for a slot takes one, or waits; it is refused only where the semaphore is closed.
pub asked-Same :
    (waiter : ℕ) (st : Scheduler)
    → (st.closed ≡ false → refusing st ≡ 0)
    → Same st (record st {
      sem = (acquire waiter st.sem).0;
      answers = elim (acquire waiter st.sem).1 [
        | none ↦ st.answers
        | some b ↦ (waiter, b) ∷ st.answers
      ];
    })
unfolding acquire try_acquire
asked-Same waiter st h = record {
  slots = ground arith;
  slot_owners = λ n. refl;
  queue = λ n. omega arith;
  specs = λ n e k. k;
  tasks = λ w. refl;
  closed = λ e. e;
  refuses = λ e. ground (arith, h e);
  stopped = λ n e. e;
}

-- A slot that nobody owns goes back.
pub returned-Same :
    (waiter : ℕ) (st : Scheduler)
    → lookup waiter st.answers ≡ some true
    → Same st (release_slot (record st { answers = forget waiter st.answers }))
unfolding release_slot
returned-Same waiter st e =
    let taken : Scheduler = record st { answers = forget waiter st.answers } in
    record {
      slots = omega (arith, release_slot-available taken, forget-promised waiter st.answers true e);
      slot_owners = λ n. refl;
      queue = λ n. omega arith;
      specs = λ n c k. k;
      tasks = λ w. refl;
      closed = λ c. c;
      refuses =
          λ c. omega (arith, release_slot-refusing taken, forget-refusals waiter st.answers true e);
      stopped = λ n c. c;
    }

-- A refusal promised no slot.
pub refused-Same :
    (waiter : ℕ) (st : Scheduler)
    → lookup waiter st.answers ≡ some false
    → Same st (record st { answers = forget waiter st.answers })
refused-Same waiter st e = record {
  slots = omega (arith, forget-promised waiter st.answers false e);
  slot_owners = λ n. refl;
  queue = λ n. omega arith;
  specs = λ n c k. k;
  tasks = λ w. refl;
  closed = λ c. c;
  refuses = λ c. omega (arith, forget-refusals waiter st.answers false e);
  stopped = λ n c. c;
}

pub pause-Same : (ps : List ℕ) (st : Scheduler) → Same st (record st { pause_requests = ps })
pause-Same ps st =
    Same-of st (record st { pause_requests = ps }) refl refl refl refl refl refl refl (λ n e. e)

pub cancel-Same :
    (id : ℕ) (st : Scheduler) → Same st (record st { cancelled_runs = add id st.cancelled_runs })
cancel-Same id st =
    Same-of st (record st { cancelled_runs = add id st.cancelled_runs }) refl refl refl refl refl
      refl refl (λ n e. add-has_not n id st.cancelled_runs e)

pub splice-Same : (id : ℕ) (st : Scheduler) → Same st (record st { queue = splice id st.queue })
splice-Same id st = record {
  slots = refl;
  slot_owners = λ n. refl;
  queue = λ n. splice-count n id st.queue;
  specs = λ n e k. omega (arith, k, splice-count n id st.queue);
  tasks = λ w. refl;
  closed = λ e. e;
  refuses = λ e. omega arith;
  stopped = λ n e. e;
}

pub audit-Same : (log : List AuditRow) (st : Scheduler) → Same st (record st { audit_log = log })
audit-Same log st =
    Same-of st (record st { audit_log = log }) refl refl refl refl refl refl refl (λ n e. e)

-- `close` forgets a queued run, once the scheduler is closed.
pub closing-Same :
    (id : ℕ) (st : Scheduler)
    → (st.closed ≡ false → ⊥)
    → Same st (record st {
      cancelled_runs = add id st.cancelled_runs;
      pause_requests = remove id st.pause_requests;
      specs = remove id st.specs;
    })
closing-Same id st shut = record {
  slots = refl;
  slot_owners = λ n. refl;
  queue = λ n. omega arith;
  specs = λ n e k. absurd (shut e);
  tasks = λ w. refl;
  closed = λ e. e;
  refuses = λ e. omega arith;
  stopped = λ n e. ground (arith, add-has_not n id st.cancelled_runs);
}

-- The end of `close`: every waiter is refused.
pub closed-Same :
    (st : Scheduler)
    → (st.closed ≡ false → ⊥)
    → Same st (record st {
      resume_waiters = [];
      released = release_all st.resume_waiters st.released;
      sem = (close st.sem).0;
      answers = refuse_all (close st.sem).1 st.answers;
    })
unfolding close
closed-Same st shut = record {
  slots = omega (arith, refuse_all-promised st.sem.waiters st.answers);
  slot_owners = λ n. refl;
  queue = λ n. omega arith;
  specs = λ n e k. absurd (shut e);
  tasks = λ w. refl;
  closed = λ e. e;
  refuses = λ e. absurd (shut e);
  stopped = λ n e. e;
}

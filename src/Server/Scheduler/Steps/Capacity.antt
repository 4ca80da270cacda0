-- ===== src/Server/Scheduler/Steps/Capacity.antt =====
-- The slots of the scheduler of src/server/scheduler.ts, and the executions that hold them.
use decompi.Base.{
  ◌-◌, inr, inl, Option-cases, ℕ, suc, ◌+◌, ◌≤◌, ◌≡◌, refl, Bool, true, false, ◌∷◌, some, arith,
  length, if◌then◌else◌,
}
use decompi.Server.Semaphore.{Semaphore, try_acquire}
use decompi.Server.Scheduler.{
  pump_loop, starts, splice, add, Task, Scheduler, has, spawn, is_stopped, begin_execution,
  start_next, pump, startable,
}
use decompi.Server.Scheduler.Pumping.{pump_loop-keeps}
use decompi.Server.Scheduler.Steps.Counts.{
  refusing, add-count, one_refl, has_not, has_some, add-length, startable-count, count, executing,
  holding, parked, arriving, closing, going, sum, available,
}

-- What is so of each run: it has one execution at most, or one place in the queue, or one call that is
-- about to queue it; an execution that runs holds a slot, one that is parked holds none.
pub record Fits (n : ℕ) (st : Scheduler) : Type 0 where
  pub unique : sum (executing n) st.tasks + count n st.queue + sum (arriving n) st.tasks ≤ 1
  pub held : sum (holding n) st.tasks ≤ count n st.slot_owners
  pub owned : count n st.slot_owners + sum (parked n) st.tasks ≤ sum (executing n) st.tasks
  pub goes : is_stopped n st ≡ false → sum (going n) st.tasks ≤ count n st.slot_owners
  pub listed : st.closed ≡ false → count n st.queue ≤ count n st.specs

pub record IsSafe (capacity : ℕ) (st : Scheduler) : Type 0 where
  pub slots : available st + length st.slot_owners ≡ capacity
  pub fits : (n : ℕ) → Fits n st
  pub opened : st.closed ≡ false → sum closing st.tasks ≡ 0
  pub grants : st.closed ≡ false → refusing st ≡ 0

-- A task that takes the place of another.
pub record Follows (t u : Task) : Type 0 where
  pub executes : (n : ℕ) → executing n u ≡ executing n t
  pub holds : (n : ℕ) → holding n u ≤ holding n t
  pub parks : (n : ℕ) → parked n u ≤ parked n t
  pub arrives : (n : ℕ) → arriving n u ≤ arriving n t
  pub closes : closing u ≤ closing t

pub follows :
    (t u : Task)
    → ((n : ℕ)
        → (executing n u ≡ executing n t)
          × (holding n u ≤ holding n t)
          × (parked n u ≤ parked n t)
          × (arriving n u ≤ arriving n t))
    → closing u ≤ closing t
    → Follows t u
follows t u h c = record {
  executes = λ n. (h n).0;
  holds = λ n. (h n).1;
  parks = λ n. (h n).2;
  arrives = λ n. (h n).3;
  closes = c;
}

-- A state that differs in what no count reads.
pub record Same (st st' : Scheduler) : Type 0 where
  pub slots : available st' + length st'.slot_owners ≡ available st + length st.slot_owners
  pub slot_owners : (n : ℕ) → count n st'.slot_owners ≡ count n st.slot_owners
  pub queue : (n : ℕ) → count n st'.queue ≤ count n st.queue
  pub specs :
      (n : ℕ)
      → st'.closed ≡ false
      → count n st.queue ≤ count n st.specs
      → count n st'.queue ≤ count n st'.specs
  pub tasks : (w : Task → ℕ) → sum w st'.tasks ≡ sum w st.tasks
  pub closed : st'.closed ≡ false → st.closed ≡ false
  pub refuses : st'.closed ≡ false → refusing st' ≤ refusing st
  pub stopped : (n : ℕ) → is_stopped n st' ≡ false → is_stopped n st ≡ false

Same-refl : (st : Scheduler) → Same st st
Same-refl st = record {
  slots = refl;
  slot_owners = λ n. refl;
  queue = λ n. omega arith;
  specs = λ n e h. h;
  tasks = λ w. refl;
  closed = λ e. e;
  refuses = λ e. omega arith;
  stopped = λ n e. e;
}

pub move :
    (capacity : ℕ) (t u : Task) (st st' : Scheduler)
    → Follows t u
    → ((n : ℕ) → is_stopped n st' ≡ false → going n u ≤ going n t)
    → Same st st'
    → IsSafe capacity (spawn t st)
    → IsSafe capacity (spawn u st')
move capacity t u st st' f g same h = record {
  slots = omega (arith, h.slots, same.slots);
  fits = λ n.
      let fit = h.fits n in
      record {
        unique = omega (
          arith,
          fit.unique,
          f.executes n,
          f.arrives n,
          same.queue n,
          same.tasks (executing n),
          same.tasks (arriving n),
        );
        held = omega (arith, fit.held, f.holds n, same.slot_owners n, same.tasks (holding n));
        owned = omega (
          arith,
          fit.owned,
          f.executes n,
          f.parks n,
          same.slot_owners n,
          same.tasks (executing n),
          same.tasks (parked n),
        );
        goes = λ e.
            omega
              (arith, fit.goes (same.stopped n e), g n e, same.slot_owners n, same.tasks (going n));
        listed = λ e. same.specs n e (fit.listed (same.closed e));
      };
  opened = λ e. omega (arith, h.opened (same.closed e), f.closes, same.tasks closing);
  grants = λ e. omega (arith, h.grants (same.closed e), same.refuses e);
}

-- A task that ends, and executed nothing.
pub drop :
    (capacity : ℕ) (t : Task) (st : Scheduler)
    → ((n : ℕ) → executing n t ≡ 0)
    → IsSafe capacity (spawn t st)
    → IsSafe capacity st
drop capacity t st f h = record {
  slots = h.slots;
  fits = λ n.
      let fit = h.fits n in
      record {
        unique = omega (arith, fit.unique);
        held = omega (arith, fit.held);
        owned = omega (arith, fit.owned, f n);
        goes = λ e. omega (arith, fit.goes e);
        listed = λ e. fit.listed e;
      };
  opened = λ e. omega (arith, h.opened e);
  grants = h.grants;
}

-- What every task and state keeps that is not read.
pub keep :
    (capacity : ℕ) (st st' : Scheduler) → Same st st' → IsSafe capacity st → IsSafe capacity st'
keep capacity st st' same h = record {
  slots = omega (arith, h.slots, same.slots);
  fits = λ n.
      let fit = h.fits n in
      record {
        unique =
            omega
              (arith, fit.unique, same.queue n, same.tasks (executing n), same.tasks (arriving n));
        held = omega (arith, fit.held, same.slot_owners n, same.tasks (holding n));
        owned =
            omega (
              arith,
              fit.owned,
              same.slot_owners n,
              same.tasks (executing n),
              same.tasks (parked n),
            );
        goes = λ e.
            omega (arith, fit.goes (same.stopped n e), same.slot_owners n, same.tasks (going n));
        listed = λ e. same.specs n e (fit.listed (same.closed e));
      };
  opened = λ e. omega (arith, h.opened (same.closed e), same.tasks closing);
  grants = λ e. omega (arith, h.grants (same.closed e), same.refuses e);
}

-- A call that is made, and queues nothing.
pub join :
    (capacity : ℕ) (t : Task) (st : Scheduler)
    → ((n : ℕ) → executing n t ≡ 0)
    → ((n : ℕ) → holding n t ≡ 0)
    → ((n : ℕ) → parked n t ≡ 0)
    → ((n : ℕ) → arriving n t ≡ 0)
    → ((n : ℕ) → going n t ≡ 0)
    → closing t ≡ 0
    → IsSafe capacity st
    → IsSafe capacity (spawn t st)
join capacity t st e k p a g c h = record {
  slots = h.slots;
  fits = λ n.
      let fit = h.fits n in
      record {
        unique = omega (arith, fit.unique, e n, a n);
        held = omega (arith, fit.held, k n);
        owned = omega (arith, fit.owned, p n, e n);
        goes = λ o. omega (arith, fit.goes o, g n);
        listed = λ o. fit.listed o;
      };
  opened = λ o. omega (arith, h.opened o, c);
  grants = h.grants;
}

-- A round of `pump`.
module _ (capacity id : ℕ) (st : Scheduler)
    (queued : startable st.pause_requests st.queue ≡ some id) (live : st.closed ≡ false)
    (h : IsSafe capacity st) where
  waiting : 1 ≤ count id st.queue
  waiting = omega (arith, startable-count id st.pause_requests st.queue id queued, one_refl id)

  no_slot : has id st.slot_owners ≡ false
  no_slot =
      has_not id st.slot_owners (omega (arith, (h.fits id).owned, (h.fits id).unique, waiting))

  known : has id st.specs ≡ true
  known = has_some id st.specs (omega (arith, (h.fits id).listed live, waiting))

  begin-Fits :
      (n : ℕ) (sem : Semaphore)
      → Fits n (record st {
        sem = sem;
        queue = splice id st.queue;
        slot_owners = add id st.slot_owners;
        executions = add id st.executions;
        tasks = starts id ∷ st.tasks;
      })
  begin-Fits n sem =
      let fit = h.fits n in
      let taken = startable-count n st.pause_requests st.queue id queued in
      let owner = add-count n id st.slot_owners no_slot in
      record {
        unique = omega (arith, fit.unique, taken);
        held = omega (arith, fit.held, owner);
        owned = omega (arith, fit.owned, owner);
        goes = λ c. omega (arith, fit.goes c, owner);
        listed = λ c. omega (arith, fit.listed c, taken);
      }

  begin-IsSafe :
      (sem : Semaphore)
      → suc sem.slots ≡ st.sem.slots
      → sem.closed ≡ st.sem.closed
      → IsSafe capacity (begin_execution id (record st { sem = sem }))
  unfolding begin_execution
  begin-IsSafe sem e c = rw known (record {
    slots = omega (arith, h.slots, add-length id st.slot_owners no_slot);
    fits = λ n. begin-Fits n sem;
    opened = λ o. omega (arith, h.opened o);
    grants = λ o. rw c (h.grants o);
  })

-- The scheduler is open, and safe.
abbrev Open : ℕ → Scheduler → Type 0
Open capacity st = (st.closed ≡ false) × IsSafe capacity st

start_next_lem :
    (st st' : Scheduler)
    → start_next st ≡ some st'
    → (id : ℕ) × (sem : Semaphore) × (startable st.pause_requests st.queue ≡ some id)
      × (suc sem.slots ≡ st.sem.slots)
      × (sem.closed ≡ st.sem.closed)
      × (st' ≡ begin_execution id (record st { sem = sem }))
unfolding start_next try_acquire
start_next_lem st st' e = elim (Option-cases (startable st.pause_requests st.queue)) [
  | inl q ↦ absurd (ground arith)
  | inr (id, q) ↦
      (id, (record st.sem { slots = st.sem.slots - 1 }), q, ground arith, refl, ground arith)
]

round-Open :
    (capacity : ℕ) (st st' : Scheduler)
    → start_next st ≡ some st'
    → Open capacity st
    → Open capacity st'
unfolding begin_execution
round-Open capacity st st' e (live, h) =
    let (id, sem, queued, slot, shut, same) = start_next_lem st st' e in
    rw same (live, begin-IsSafe capacity id st queued live h sem slot shut)

pub pump-IsSafe : (capacity : ℕ) (st : Scheduler) → IsSafe capacity st → IsSafe capacity (pump st)
unfolding pump
pump-IsSafe capacity st h = choose st.closed refl
  where
    choose :
        (b : Bool)
        → st.closed ≡ b
        → IsSafe capacity (if b then st else pump_loop (length st.queue) st)
    choose true e = h
    choose false e =
        (pump_loop-keeps (Open capacity) (round-Open capacity) (length st.queue) st (e, h)).1

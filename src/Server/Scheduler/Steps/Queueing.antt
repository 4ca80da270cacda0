-- ===== src/Server/Scheduler/Steps/Queueing.antt =====
-- That an execution of src/server/scheduler.ts which ends, and a run that is queued, keep the count of the
-- slots.
use decompi.Base.{◌++◌, ℕ_discrete, inr, inl, ℕ, ◌+◌, ◌≡◌, true, false, [], ◌∷◌, arith}
use decompi.Server.Scheduler.{remove, add, Scheduler, has, spawn, release_slot, enqueues, leaves}
use decompi.Server.Scheduler.Steps.{leave}
use decompi.Server.Scheduler.Steps.Counts.{
  parked-executing, count-append, remove-has, going-executing, holding-going, count-has, sum_mono,
  has-count-true, add-here, release_slot-refusing, remove-count, add-grows, remove-length, only,
  add-upper, release_slot-available, one_refl, add-bound, count, executing, holding, parked,
  arriving, going, sum,
}
use decompi.Server.Scheduler.Steps.Capacity.{Fits, IsSafe, pump-IsSafe}
use decompi.Server.Scheduler.Steps.Slots.{test-IsSafe}

module _ (capacity : ℕ) where
  -- What the `finally` of an execution forgets.
  abbrev left : ℕ → Scheduler → Scheduler
  left id st = record st {
    executions = remove id st.executions;
    cancelled_runs = remove id st.cancelled_runs;
    pause_requests = remove id st.pause_requests;
    specs = remove id st.specs;
    slot_owners = remove id st.slot_owners;
  }

  left-Fits : (n id : ℕ) (st : Scheduler) → Fits n (spawn (leaves id) st) → Fits n (left id st)
  left-Fits n id st fit =
      let gone = remove-count n id st.slot_owners in
      let below = sum_mono (holding n) (going n) (holding-going n) st.tasks in
      let none_parked = sum_mono (parked n) (executing n) (parked-executing n) st.tasks in
      let under = sum_mono (going n) (executing n) (going-executing n) st.tasks in
      record {
        unique = omega (arith, fit.unique);
        held = ground (arith, fit.held, fit.unique, gone, below, under);
        owned = ground (arith, fit.owned, fit.unique, gone, none_parked);
        goes = λ e. elim (ℕ_discrete id n) [
          | yes q ↦ ground (arith, fit.unique, under)
          | no q ↦ ground (arith, fit.goes, remove-has n id st.cancelled_runs)
        ];
        listed = λ e. ground (arith, fit.listed e, fit.unique, remove-count n id st.specs);
      }

  freed-IsSafe :
      (id : ℕ) (st : Scheduler)
      → has id st.slot_owners ≡ true
      → IsSafe capacity (spawn (leaves id) st)
      → IsSafe capacity (release_slot (left id st))
  unfolding release_slot
  freed-IsSafe id st e h =
      let own = h.fits id in
      let alone : count id st.slot_owners ≡ 1 =
        omega (arith, has-count-true id st.slot_owners e, own.owned, own.unique, one_refl id) in
      record {
        slots = omega (
          arith,
          h.slots,
          release_slot-available (left id st),
          remove-length id st.slot_owners,
          alone,
        );
        fits = λ n.
            let fit = left-Fits n id st (h.fits n) in
            record {
              unique = fit.unique;
              held = fit.held;
              owned = fit.owned;
              goes = fit.goes;
              listed = fit.listed;
            };
        opened = λ c. omega (arith, h.opened c);
        grants = λ c. omega (arith, h.grants c, release_slot-refusing (left id st));
      }

  unfreed-IsSafe :
      (id : ℕ) (st : Scheduler)
      → has id st.slot_owners ≡ false
      → IsSafe capacity (spawn (leaves id) st)
      → IsSafe capacity (left id st)
  unfreed-IsSafe id st e h = record {
    slots = omega (arith, h.slots, remove-length id st.slot_owners, count-has id st.slot_owners e);
    fits = λ n. left-Fits n id st (h.fits n);
    opened = λ c. omega (arith, h.opened c);
    grants = h.grants;
  }

  pub leave-IsSafe :
      (id : ℕ) (st : Scheduler)
      → IsSafe capacity (spawn (leaves id) st)
      → IsSafe capacity (leave id st)
  unfolding leave
  leave-IsSafe id st h = pump-IsSafe capacity _ (
      test-IsSafe capacity (has id st.slot_owners) _ _ (λ e. freed-IsSafe id st e h)
        (λ e. unfreed-IsSafe id st e h))

  pub enqueue-IsSafe :
      (id : ℕ) (st : Scheduler)
      → IsSafe capacity (spawn (enqueues id) st)
      → IsSafe capacity (record st { specs = add id st.specs; queue = st.queue ++ id ∷ [] })
  enqueue-IsSafe id st h = record {
    slots = h.slots;
    fits = λ n.
        let fit = h.fits n in
        let more = count-append n st.queue (id ∷ []) in
        record {
          unique = omega (arith, fit.unique, more);
          held = omega (arith, fit.held);
          owned = omega (arith, fit.owned);
          goes = λ e. omega (arith, fit.goes e);
          listed = λ e. omega (
            arith,
            fit.listed e,
            fit.unique,
            more,
            add-grows n id st.specs,
            add-here n id st.specs,
          );
        };
    opened = λ e. omega (arith, h.opened e);
    grants = h.grants;
  }

  pub requeue-IsSafe :
      (id : ℕ) (st : Scheduler)
      → sum (executing id) st.tasks + sum (arriving id) st.tasks ≡ 0
      → IsSafe capacity st
      → IsSafe capacity (record st { specs = add id st.specs; queue = add id st.queue })
  requeue-IsSafe id st e h = record {
    slots = h.slots;
    fits = λ n.
        let fit = h.fits n in
        let bound = add-bound n id st.queue (omega (arith, fit.unique)) in
        let upper = add-upper n id st.queue in
        record {
          unique =
              elim (only (λ k. sum (executing k) st.tasks + sum (arriving k) st.tasks) id n e) [
                | inl o ↦ omega (arith, fit.unique, upper)
                | inr o ↦ omega (arith, bound)
              ];
          held = fit.held;
          owned = fit.owned;
          goes = fit.goes;
          listed = λ c. omega (
            arith,
            fit.listed c,
            fit.unique,
            upper,
            bound,
            add-grows n id st.specs,
            add-here n id st.specs,
          );
        };
    opened = h.opened;
    grants = h.grants;
  }

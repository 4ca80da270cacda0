-- ===== src/Server/Scheduler/Steps/Slots.antt =====
-- That the steps of an execution in src/server/scheduler.ts lose no slot, one lemma for each place where
-- it waits.
use decompi.Base.{
  ℕ_discrete, ◌∙◌, sym, ap, ℕ, suc, ◌+◌, ◌≤◌, ◌≡◌, refl, Bool, true, false, ◌∷◌, Option, none, some,
  arith, if◌then◌else◌,
}
use decompi.Server.Scheduler.{
  remove, forget, add, lookup, Task, Scheduler, RunStatus, Ending, has, spawn, is_stopped,
  release_slot, RunRow, completing, failing, aborting, works, resumes, resumed, yields, yielded,
  parks, acquires, ends,
}
use decompi.Server.Scheduler.Steps.{
  on_status, Choice, boundary, returns, throws, checkpoint, pause_and_wait, conclude, work,
  ask_slot, take_slot,
}
use decompi.Server.Scheduler.Steps.Counts.{
  add-count, holding-going, add-length, sum_mono, has_not, forget-promised, forget-refusals,
  release_slot-refusing, remove-count, remove-length, release_slot-available, one_refl, one, count,
  holding, going, sum,
}
use decompi.Server.Scheduler.Steps.Capacity.{follows, Fits, IsSafe, move, keep}
use decompi.Server.Scheduler.Steps.Sameness.{
  rows-Same, wait-Same, asked-Same, returned-Same, refused-Same, pause-Same,
}

module _ (capacity : ℕ) where
  pub either-IsSafe :
      (b : Bool) (x y : Scheduler)
      → IsSafe capacity x
      → IsSafe capacity y
      → IsSafe capacity (if b then x else y)
  either-IsSafe true x y h k = h
  either-IsSafe false x y h k = k

  pub test-IsSafe :
      (b : Bool) (x y : Scheduler)
      → (b ≡ true → IsSafe capacity x)
      → (b ≡ false → IsSafe capacity y)
      → IsSafe capacity (if b then x else y)
  test-IsSafe true x y h k = h refl
  test-IsSafe false x y h k = k refl

  pub read-IsSafe :
      (o : Option RunRow) (f : RunStatus → Scheduler) (st : Scheduler)
      → ((s : RunStatus) → IsSafe capacity (f s))
      → IsSafe capacity st
      → IsSafe capacity (on_status o f st)
  read-IsSafe none f st h k = k
  read-IsSafe (some r) f st h k = h r.status

  pub ends-IsSafe :
      (id : ℕ) (e : Ending) (st : Scheduler)
      → IsSafe capacity (spawn (works id) st)
      → IsSafe capacity (spawn (ends id e) st)
  ends-IsSafe id e st h =
      move capacity (works id) (ends id e) st st (follows _ _ (λ n. ground arith) (omega arith))
        (λ n c. omega arith) (rows-Same st.rows st) h

  conclude-IsSafe :
      (id : ℕ) (e : Ending) (st : Scheduler)
      → IsSafe capacity (spawn (works id) st)
      → IsSafe capacity (conclude id e st)
  unfolding conclude
  conclude-IsSafe id e st h = either-IsSafe (is_stopped id st) _ _ (ends-IsSafe id aborting st h) (
      keep capacity (spawn (ends id e) st) _
        (pause-Same (remove id st.pause_requests) (spawn (ends id e) st)) (ends-IsSafe id e st h))

  -- An execution that goes on as it is, or ends.
  pub checkpoint-IsSafe :
      (id : ℕ) (st : Scheduler)
      → IsSafe capacity (spawn (works id) st)
      → IsSafe capacity (checkpoint id st)
  unfolding checkpoint pause_and_wait
  checkpoint-IsSafe id st h = either-IsSafe (is_stopped id st) _ _ (ends-IsSafe id aborting st h) (
      either-IsSafe (has id st.pause_requests) _ _
        (either-IsSafe (is_stopped id st) _ _
          (move capacity (works id) (resumed id) st _
            (follows _ _ (λ n. ground arith) (omega arith)) (λ n e. omega arith)
            (wait-Same id (suc st.next_waiter) (λ ws. ws) st) h)
          (move capacity (works id) (yields id st.next_waiter) st _
            (follows _ _ (λ n. ground arith) (omega arith)) (λ n e. omega arith)
            (wait-Same id (suc st.next_waiter) (λ ws. (id, st.next_waiter) ∷ ws) st) h))
        h)

  pub work-IsSafe :
      (c : Choice) (id : ℕ) (st : Scheduler)
      → IsSafe capacity (spawn (works id) st)
      → IsSafe capacity (work c id st)
  unfolding work
  work-IsSafe boundary id st h = checkpoint-IsSafe id st h
  work-IsSafe returns id st h = conclude-IsSafe id completing st h
  work-IsSafe throws id st h = conclude-IsSafe id failing st h

  pub yielded-IsSafe :
      (id waiter : ℕ) (st : Scheduler)
      → IsSafe capacity (spawn (yielded id waiter) st)
      → IsSafe capacity (
          spawn
            (parks id waiter)
            (release_slot (record st { slot_owners = remove id st.slot_owners })))
  unfolding release_slot
  yielded-IsSafe id waiter st h =
      let left : Scheduler = record st { slot_owners = remove id st.slot_owners } in
      let own = h.fits id in
      let alone : count id st.slot_owners ≡ 1 =
        omega (arith, own.held, own.owned, own.unique, one_refl id) in
      record {
        slots =
            omega
              (arith, h.slots, release_slot-available left, remove-length id st.slot_owners, alone);
        fits = λ n.
            let fit = h.fits n in
            let gone = remove-count n id st.slot_owners in
            record {
              unique = omega (arith, fit.unique);
              held = ground (arith, fit.held, fit.owned, fit.unique, gone);
              owned = ground (arith, fit.held, fit.owned, gone);
              goes = λ e. ground (arith, fit.goes e, fit.owned, fit.unique, gone);
              listed = fit.listed;
            };
        opened = λ e. omega (arith, h.opened e);
        grants = λ e. omega (arith, h.grants e, release_slot-refusing left);
      }

  -- No run that is not stopped is a stopped one.
  stops :
      (id : ℕ) (st : Scheduler)
      → is_stopped id st ≡ true
      → (n : ℕ) → is_stopped n st ≡ false
      → one n id ≤ 0
  stops id st e n c = elim (ℕ_discrete id n) [ yes q ↦ absurd (ground arith) | no q ↦ ground arith ]

  pub ask_slot-IsSafe :
      (id waiter : ℕ) (st : Scheduler)
      → IsSafe capacity (spawn (parks id waiter) st)
      → IsSafe capacity (ask_slot id waiter st)
  unfolding ask_slot
  ask_slot-IsSafe id waiter st h =
      test-IsSafe (is_stopped id st) _ _
        (λ e.
          move capacity (parks id waiter) (resumed id) st st
            (follows _ _ (λ n. ground arith) (omega arith)) (stops id st e) (rows-Same st.rows st)
            h)
        (λ e.
          move capacity (parks id waiter) (acquires id waiter) st _
            (follows _ _ (λ n. ground arith) (omega arith)) (λ n c. omega arith)
            (asked-Same waiter st h.grants) h)

  -- A slot is refused only where the scheduler is closed.
  open_refuses :
      {t : Task} (waiter : ℕ) (st : Scheduler)
      → lookup waiter st.answers ≡ some false
      → IsSafe capacity (spawn t st)
      → (n : ℕ) → is_stopped n st ≡ false
      → ⊥
  open_refuses waiter st e h n c =
      let live : st.closed ≡ false = ground arith in
      omega (arith, h.grants live, forget-refusals waiter st.answers false e)

  owner-IsSafe :
      (id waiter : ℕ) (st : Scheduler)
      → lookup waiter st.answers ≡ some true
      → IsSafe capacity (spawn (acquires id waiter) st)
      → IsSafe capacity (
          spawn
            (resumes id)
            (record st { answers = forget waiter st.answers; slot_owners = add id st.slot_owners }))
  owner-IsSafe id waiter st e h =
      let own = h.fits id in
      let none_yet =
        has_not id st.slot_owners (omega (arith, own.owned, own.unique, one_refl id)) in
      record {
        slots = omega (
          arith,
          h.slots,
          add-length id st.slot_owners none_yet,
          forget-promised waiter st.answers true e,
        );
        fits = λ n.
            let fit = h.fits n in
            let owner = add-count n id st.slot_owners none_yet in
            record {
              unique = omega (arith, fit.unique);
              held = omega (arith, fit.held, owner);
              owned = omega (arith, fit.owned, owner);
              goes = λ c. omega (arith, fit.goes c, owner);
              listed = fit.listed;
            };
        opened = λ c. omega (arith, h.opened c);
        grants = λ c. omega (arith, h.grants c, forget-refusals waiter st.answers true e);
      }

  pub take_slot-IsSafe :
      (id waiter : ℕ) (granted : Bool) (st : Scheduler)
      → lookup waiter st.answers ≡ some granted
      → IsSafe capacity (spawn (acquires id waiter) st)
      → IsSafe capacity (take_slot id granted (record st { answers = forget waiter st.answers }))
  unfolding take_slot release_slot
  take_slot-IsSafe id waiter true st e h =
      test-IsSafe (is_stopped id st) _ _
        (λ c.
          move capacity (acquires id waiter) (resumed id) st _
            (follows _ _ (λ n. ground arith) (omega arith)) (stops id st c)
            (returned-Same waiter st e) h)
        (λ c. owner-IsSafe id waiter st e h)
  take_slot-IsSafe id waiter false st e h =
      move capacity (acquires id waiter) (resumed id) st _
        (follows _ _ (λ n. ground arith) (omega arith))
        (λ n c. absurd (open_refuses waiter st e h n c)) (refused-Same waiter st e) h

  pub resumed-IsSafe :
      (id : ℕ) (st : Scheduler)
      → is_stopped id st ≡ false
      → IsSafe capacity (spawn (resumed id) st)
      → IsSafe capacity (spawn (works id) st)
  resumed-IsSafe id st e h = record {
    slots = h.slots;
    fits = λ n.
        let fit = h.fits n in
        record {
          unique = omega (arith, fit.unique);
          held = holds n fit;
          owned = omega (arith, fit.owned);
          goes = λ e. omega (arith, fit.goes e);
          listed = fit.listed;
        };
    opened = λ e. omega (arith, h.opened e);
    grants = h.grants;
  }
    where
      holds :
          (n : ℕ)
          → Fits n (spawn (resumed id) st)
          → one n id + sum (holding n) st.tasks ≤ count n st.slot_owners
      holds n fit = elim (ℕ_discrete id n) [
        | yes q ↦ omega (
          arith,
          fit.goes (ap (λ k. is_stopped k st) (sym q) ∙ e),
          sum_mono (holding n) (going n) (holding-going n) st.tasks,
        )
        | no q ↦ ground (arith, fit.held)
      ]

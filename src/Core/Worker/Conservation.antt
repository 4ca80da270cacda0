-- ===== src/Core/Worker/Conservation.antt =====
-- No request of the pool of src/core/worker.ts is lost, and none is settled twice.
use decompi.Base.{ℕ, zero, suc, ◌+◌, ◌≡◌, refl, List, [], ◌∷◌, ◌++◌, Option, none, some, arith, All}
use decompi.Core.Worker.Dispatching.{
  one, count_requests, count_settled, total, IsSound, count_requests-append, count_settled-append,
  count_reject_all, pump-kept,
}
use decompi.Core.Worker.{
  run, Request, Slot, Pool, System, closed_error, Line, Effect, Event, requests, lines, timeouts,
  exits, spawn_errors, closes, reject_all, request, answer, on_current, on_line, on_timeout,
  on_exit, on_spawn_error, to_list, at_slot, handle, close_slots, in_flight, close, step,
}

-- A handler that neither loses the slot's request nor makes one up.
abbrev Keeps : ℕ → (Slot → Effect) → Slot → Type 0
Keeps n h s =
    (count_requests n (to_list (h s).slot.current)
        + count_settled n (to_list (h s).outcome)
        + count_requests n (to_list (h s).requeue)
      ≡ count_requests n (to_list s.current))
    × (IsSound s → IsSound (h s).slot)

on_line-Keeps : (n p : ℕ) (line : Line) (s : Slot) → Keeps n (on_line p line) s
unfolding on_line on_current answer
on_line-Keeps n p line s = ground arith

on_timeout-Keeps : (n name : ℕ) (s : Slot) → Keeps n (on_timeout name) s
unfolding on_timeout
on_timeout-Keeps n name s = ground arith

on_exit-Keeps : (n p : ℕ) (s : Slot) → Keeps n (on_exit p) s
unfolding on_exit
on_exit-Keeps n p s = ground arith

on_spawn_error-Keeps : (n p : ℕ) (s : Slot) → Keeps n (on_spawn_error p) s
unfolding on_spawn_error
on_spawn_error-Keeps n p s = ground arith

abbrev At : ℕ → List Slot → Option (List Slot × Effect) → Type 0
At n ss none = Unit
At n ss (some (ss', e)) =
    (count_requests n (in_flight ss')
        + count_settled n (to_list e.outcome)
        + count_requests n (to_list e.requeue)
      ≡ count_requests n (in_flight ss))
    × (All IsSound ss → All IsSound ss')

at_slot-At :
    (n i : ℕ) (h : Slot → Effect)
    → ((s : Slot) → Keeps n h s)
    → (ss : List Slot) → At n ss (at_slot i h ss)
unfolding at_slot
at_slot-At n zero h keeps [] = tt
at_slot-At n (suc i) h keeps [] = tt
at_slot-At n zero h keeps (s ∷ ss) = (
  omega (
    arith,
    (keeps s).0,
    count_requests-append n (to_list (h s).slot.current) (in_flight ss),
    count_requests-append n (to_list s.current) (in_flight ss),
  ),
  λ sound. ((keeps s).1 sound.0, sound.1),
)
at_slot-At n (suc i) h keeps (s ∷ ss) = lift (at_slot i h ss) (at_slot-At n i h keeps ss)
  where
    lift :
        (o : Option (List Slot × Effect))
        → At n ss o
        → At n (s ∷ ss) (elim o [ none ↦ none | some (ss', e) ↦ some (s ∷ ss', e) ])
    lift none a = tt
    lift (some (ss', e)) a = (
      omega (
        arith,
        a.0,
        count_requests-append n (to_list s.current) (in_flight ss'),
        count_requests-append n (to_list s.current) (in_flight ss),
      ),
      λ sound. (sound.0, a.1 sound.1),
    )

handle-kept :
    (sys : System) (i : ℕ) (h : Slot → Effect) (pool : Pool) (n : ℕ)
    → ((s : Slot) → Keeps n h s)
    → All IsSound pool.slots
    → (total n (handle sys i h pool) ≡ total n pool) × All IsSound (handle sys i h pool).slots
unfolding handle
handle-kept sys i h pool n keeps sound =
    go (at_slot i h pool.slots) refl (at_slot-At n i h keeps pool.slots)
  where
    next : List Slot → Effect → Pool
    next ss' e = record pool {
      slots = ss';
      queue = to_list e.requeue ++ pool.queue;
      settled = pool.settled ++ to_list e.outcome;
    }

    go :
        (o : Option (List Slot × Effect))
        → at_slot i h pool.slots ≡ o
        → At n pool.slots o
        → (total n (handle sys i h pool) ≡ total n pool) × All IsSound (handle sys i h pool).slots
    go none e a = rw (e, handle) (refl, sound)
    go (some (ss', e)) q a =
        let same : total n (next ss' e) ≡ total n pool = omega (
          arith,
          a.0,
          count_requests-append n (to_list e.requeue) pool.queue,
          count_settled-append n pool.settled (to_list e.outcome),
        ) in
        rw (q, handle) (ground (arith, same, a.1 sound, pump-kept sys (next ss' e) n (a.1 sound)))

close_slots-IsSound : (ss : List Slot) → All IsSound (close_slots ss)
close_slots-IsSound [] = tt
close_slots-IsSound (s ∷ ss) = (refl, close_slots-IsSound ss)

close_slots-empty : (n : ℕ) (ss : List Slot) → count_requests n (in_flight (close_slots ss)) ≡ 0
close_slots-empty n [] = refl
close_slots-empty n (s ∷ ss) = close_slots-empty n ss

-- Whether an event makes the request.
abbrev pub asked : ℕ → Event → ℕ
asked n (requests name method) = one n name
asked n _ = 0

step-total :
    (sys : System) (pool : Pool) (e : Event) (n : ℕ)
    → All IsSound pool.slots
    → (total n (step sys pool e) ≡ total n pool + asked n e) × All IsSound (step sys pool e).slots
unfolding step request close
step-total sys pool (requests name method) n sound =
    let req : Request = record { name = name; method = method; attempts = 0; rid = 0 } in
    ground (
      arith,
      pump-kept sys (record pool { queue = pool.queue ++ req ∷ [] }) n sound,
      count_requests-append n pool.queue (req ∷ []),
      count_settled-append n pool.settled ((name, closed_error) ∷ []),
      sound,
    )
step-total sys pool (lines i p line) n sound =
    ground (arith, handle-kept sys i (on_line p line) pool n (on_line-Keeps n p line) sound)
step-total sys pool (timeouts i name) n sound =
    ground (arith, handle-kept sys i (on_timeout name) pool n (on_timeout-Keeps n name) sound)
step-total sys pool (exits i p) n sound =
    ground (arith, handle-kept sys i (on_exit p) pool n (on_exit-Keeps n p) sound)
step-total sys pool (spawn_errors i p) n sound =
    ground (arith, handle-kept sys i (on_spawn_error p) pool n (on_spawn_error-Keeps n p) sound)
step-total sys pool closes n sound = (
  omega (
    arith,
    close_slots-empty n pool.slots,
    count_settled-append n pool.settled
        (reject_all closed_error pool.queue ++ reject_all closed_error (in_flight pool.slots)),
    count_settled-append n (reject_all closed_error pool.queue)
        (reject_all closed_error (in_flight pool.slots)),
    count_reject_all n closed_error pool.queue,
    count_reject_all n closed_error (in_flight pool.slots),
  ),
  close_slots-IsSound pool.slots,
)

abbrev pub asked_all : ℕ → List (System × Event) → ℕ
asked_all n [] = 0
asked_all n ((sys, e) ∷ es) = asked n e + asked_all n es

-- From a pool whose slots are busy exactly while they serve a request, after any events and whatever
-- the operating system answers at each of them, a request is waiting, in flight and settled exactly as
-- often, together, as it was before and was made since: one made once is never lost and never
-- settled twice. And slots are still busy exactly while they serve a request.
pub run-total :
    (pool : Pool) (es : List (System × Event)) (n : ℕ)
    → All IsSound pool.slots
    → (total n (run pool es) ≡ total n pool + asked_all n es) × All IsSound (run pool es).slots
unfolding run
run-total pool [] n sound = (omega arith, sound)
run-total pool ((sys, e) ∷ es) n sound =
    let (now, sound') = step-total sys pool e n sound in
    let (later, kept) = run-total (step sys pool e) es n sound' in (omega (arith, now, later), kept)

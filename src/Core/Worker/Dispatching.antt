-- ===== src/Core/Worker/Dispatching.antt =====
-- `pump` and `dispatch` of src/core/worker.ts neither lose a request nor make one up.
use decompi.Base.{
  ℕ, ◌+◌, ◌≡◌, refl, Bool, true, false, List, [], ◌∷◌, ◌++◌, Option, none, some, arith,
  if◌then◌else◌, ◌==◌, All, is_some,
}
use decompi.Core.Worker.{
  Request, Slot, Outcome, Pool, System, Counters, Dispatched, closed_error, dispatch, assign,
  rejected, pump_queue, reject_all, pump, to_list, in_flight,
}

abbrev pub one : ℕ → ℕ → ℕ
one n m = if m == n then 1 else 0

abbrev pub count_requests : ℕ → List Request → ℕ
count_requests n [] = 0
count_requests n (r ∷ rs) = one n r.name + count_requests n rs

abbrev pub count_settled : ℕ → List (ℕ × Outcome) → ℕ
count_settled n [] = 0
count_settled n ((m, o) ∷ os) = one n m + count_settled n os

-- How often a request is anywhere: waiting, in flight, or settled.
abbrev pub total : ℕ → Pool → ℕ
total n pool =
    count_requests n pool.queue
    + count_requests n (in_flight pool.slots)
    + count_settled n pool.settled

-- A slot is busy exactly while it has a request in flight.
abbrev pub IsSound : Slot → Type 0
IsSound s = s.busy ≡ is_some s.current

pub count_requests-append :
    (n : ℕ) (xs ys : List Request)
    → count_requests n (xs ++ ys) ≡ count_requests n xs + count_requests n ys
count_requests-append n [] ys = omega arith
count_requests-append n (x ∷ xs) ys = omega (arith, count_requests-append n xs ys)

pub count_settled-append :
    (n : ℕ) (xs ys : List (ℕ × Outcome))
    → count_settled n (xs ++ ys) ≡ count_settled n xs + count_settled n ys
count_settled-append n [] ys = omega arith
count_settled-append n ((m, o) ∷ xs) ys = omega (arith, count_settled-append n xs ys)

pub count_reject_all :
    (n : ℕ) (o : Outcome) (rs : List Request)
    → count_settled n (reject_all o rs) ≡ count_requests n rs
count_reject_all n o [] = refl
count_reject_all n o (r ∷ rs) = omega (arith, count_reject_all n o rs)

dispatch-count :
    (sys : System) (c : Counters) (s : Slot) (req : Request) (n : ℕ)
    → let d = dispatch sys c s req in
      (count_requests n (to_list d.slot.current) + count_settled n (rejected req.name d.rejection)
        ≡ one n req.name)
      × IsSound d.slot
unfolding dispatch
dispatch-count sys c s req n = ground arith

-- Where `assign` finds a slot, the slots and the rejection hold the request once more than before.
abbrev Placed : ℕ → Request → List Slot → Option (List Slot × Counters × Option Outcome) → Type 0
Placed n req ss none = Unit
Placed n req ss (some (ss', c', r)) =
    (count_requests n (in_flight ss') + count_settled n (rejected req.name r)
      ≡ count_requests n (in_flight ss) + one n req.name)
    × All IsSound ss'

Placed-cons :
    (n : ℕ) (req : Request) (s : Slot) (ss : List Slot)
    (o : Option (List Slot × Counters × Option Outcome))
    → IsSound s
    → Placed n req ss o
    → Placed n req (s ∷ ss) (elim o [ none ↦ none | some (ss', c', r) ↦ some (s ∷ ss', c', r) ])
Placed-cons n req s ss none sound h = tt
Placed-cons n req s ss (some (ss', c', r)) sound h = (
  omega (
    arith,
    h.0,
    count_requests-append n (to_list s.current) (in_flight ss'),
    count_requests-append n (to_list s.current) (in_flight ss),
  ),
  (sound, h.1),
)

assign-Placed :
    (sys : System) (c : Counters) (req : Request) (ss : List Slot) (n : ℕ)
    → All IsSound ss
    → Placed n req ss (assign sys c req ss)
unfolding assign
assign-Placed sys c req [] n sound = tt
assign-Placed sys c req (s ∷ ss) n sound = choose (assign-Placed sys c req ss n sound.1) s.busy refl
  where
    d : Dispatched
    d = dispatch sys c s req

    choose :
        Placed n req ss (assign sys c req ss)
        → (b : Bool) → s.busy ≡ b
        → Placed n req (s ∷ ss) (
            if b
            then elim (assign sys c req ss) [
              | none ↦ none
              | some (ss', c', r) ↦ some (s ∷ ss', c', r)
            ]
            else some (d.slot ∷ ss, d.counters, d.rejection))
    choose ih true busy = Placed-cons n req s ss (assign sys c req ss) sound.0 ih
    choose ih false free =
        let (counted, kept) = dispatch-count sys c s req n in
        let empty = sound.0 in
        (
          ground (
            arith,
            counted,
            empty,
            free,
            count_requests-append n (to_list d.slot.current) (in_flight ss),
          ),
          (kept, sound.1),
        )

abbrev IsKept : ℕ → List Request → Pool → Pool → Type 0
IsKept n queue before after =
    (total n after
      ≡ count_requests n queue
        + count_requests n (in_flight before.slots)
        + count_settled n before.settled)
    × All IsSound after.slots

pump_queue-IsKept :
    (sys : System) (queue : List Request) (pool : Pool) (n : ℕ)
    → All IsSound pool.slots
    → IsKept n queue pool (pump_queue sys queue pool)
unfolding pump_queue
pump_queue-IsKept sys [] pool n sound = (refl, sound)
pump_queue-IsKept sys (req ∷ reqs) pool n sound =
    go (λ p. pump_queue-IsKept sys reqs p n) (assign sys c req pool.slots) refl
      (assign-Placed sys c req pool.slots n sound)
  where
    c : Counters
    c = record { next_id = pool.next_id; next_proc = pool.next_proc; sent = pool.sent }

    next : List Slot → Counters → Option Outcome → Pool
    next ss' c' r = record pool {
      slots = ss';
      next_id = c'.next_id;
      next_proc = c'.next_proc;
      sent = c'.sent;
      settled = pool.settled ++ rejected req.name r;
    }

    go :
        ((p : Pool) → All IsSound p.slots → IsKept n reqs p (pump_queue sys reqs p))
        → (o : Option (List Slot × Counters × Option Outcome)) → assign sys c req pool.slots ≡ o
        → Placed n req pool.slots o
        → IsKept n (req ∷ reqs) pool (pump_queue sys (req ∷ reqs) pool)
    go ih none e h = rw (e, pump_queue) (refl, sound)
    go ih (some (ss', c', r)) e h =
        rw (e, pump_queue)
          (let rest = ih (next ss' c' r) h.1 in
            (
              omega (arith, rest.0, h.0, count_settled-append n pool.settled (rejected req.name r)),
              rest.1,
            ))

pub pump-kept :
    (sys : System) (pool : Pool) (n : ℕ)
    → All IsSound pool.slots
    → (total n (pump sys pool) ≡ total n pool) × All IsSound (pump sys pool).slots
unfolding pump
pump-kept sys pool n sound = ground (
  arith,
  pump_queue-IsKept sys pool.queue pool n sound,
  count_settled-append n pool.settled (reject_all closed_error pool.queue),
  count_reject_all n closed_error pool.queue,
)

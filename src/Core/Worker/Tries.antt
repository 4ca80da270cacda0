-- ===== src/Core/Worker/Tries.antt =====
-- How often the pool of src/core/worker.ts writes a request to a process.
use decompi.Base.{
  ℕ, zero, suc, ◌+◌, ◌-◌, ◌*◌, ◌≤◌, ◌≡◌, refl, Bool, true, false, List, [], ◌∷◌, ◌++◌, Option, none,
  some, arith, All, if◌then◌else◌, ◌==◌,
}
use decompi.Core.Worker.{
  run, Request, Slot, Pool, System, Counters, Outcome, Dispatched, Line, Effect, Event, requests,
  lines, timeouts, exits, spawn_errors, closes, request, answer, on_current, on_line, on_timeout,
  dispatch, assign, rejected, pump_queue, pump, on_exit, on_spawn_error, to_list, at_slot, handle,
  close_slots, in_flight, close, step,
}
use decompi.Core.Worker.Dispatching.{one}
use decompi.Core.Worker.Conservation.{asked, asked_all}
use decompi.Core.Worker.Attempts.{All-append, IsUntried, IsBounded, step-IsBounded}

-- How often a request was written to a process.
abbrev pub writes : ℕ → List ℕ → ℕ
writes n [] = 0
writes n (m ∷ ms) = one n m + writes n ms

-- The tries that are left to the requests of a name.
abbrev pub tries : ℕ → List Request → ℕ
tries n [] = 0
tries n (r ∷ rs) = (if r.name == n then 2 - r.attempts else 0) + tries n rs

-- The writes of a request, and those that may follow.
abbrev pub allowance : ℕ → Pool → ℕ
allowance n pool = writes n pool.sent + tries n pool.queue + tries n (in_flight pool.slots)

tries-append : (n : ℕ) (xs ys : List Request) → tries n (xs ++ ys) ≡ tries n xs + tries n ys
tries-append n [] ys = omega arith
tries-append n (x ∷ xs) ys = omega (arith, tries-append n xs ys)

dispatch-writes :
    (sys : System) (c : Counters) (s : Slot) (req : Request) (n : ℕ)
    → IsUntried req
    → let d = dispatch sys c s req in
      writes n d.counters.sent + tries n (to_list d.slot.current)
      ≤ writes n c.sent + tries n (req ∷ [])
unfolding dispatch
dispatch-writes sys c s req n h = ground arith

abbrev Placed :
    ℕ → Counters → Request → List Slot → Option (List Slot × Counters × Option Outcome) → Type 0
Placed n c req ss none = Unit
Placed n c req ss (some (ss', c', r)) =
    writes n c'.sent + tries n (in_flight ss')
    ≤ writes n c.sent + tries n (in_flight ss) + tries n (req ∷ [])

assign-Placed :
    (sys : System) (c : Counters) (req : Request) (ss : List Slot) (n : ℕ)
    → IsUntried req
    → Placed n c req ss (assign sys c req ss)
unfolding assign
assign-Placed sys c req [] n h = tt
assign-Placed sys c req (s ∷ ss) n h =
    choose s.busy (assign sys c req ss) (assign-Placed sys c req ss n h)
  where
    d : Dispatched
    d = dispatch sys c s req

    choose :
        (b : Bool) (o : Option (List Slot × Counters × Option Outcome))
        → Placed n c req ss o
        → Placed n c req (s ∷ ss) (
            if b
            then elim o [ none ↦ none | some (ss', c', r) ↦ some (s ∷ ss', c', r) ]
            else some (d.slot ∷ ss, d.counters, d.rejection))
    choose true none ih = tt
    choose true (some (ss', c', r)) ih = omega (
      arith,
      ih,
      tries-append n (to_list s.current) (in_flight ss'),
      tries-append n (to_list s.current) (in_flight ss),
    )
    choose false o ih = omega (
      arith,
      dispatch-writes sys c s req n h,
      tries-append n (to_list s.current) (in_flight ss),
      tries-append n (to_list d.slot.current) (in_flight ss),
    )

pump_queue-allowance :
    (sys : System) (queue : List Request) (pool : Pool) (n : ℕ)
    → All IsUntried queue
    → allowance n (pump_queue sys queue pool)
      ≤ writes n pool.sent + tries n queue + tries n (in_flight pool.slots)
unfolding pump_queue
pump_queue-allowance sys [] pool n w = omega arith
pump_queue-allowance sys (req ∷ reqs) pool n w =
    go (λ p. pump_queue-allowance sys reqs p n w.1) (assign sys c req pool.slots) refl
      (assign-Placed sys c req pool.slots n w.0)
  where
    c : Counters
    c = record { next_id = pool.next_id; next_proc = pool.next_proc; sent = pool.sent }

    go :
        ((p : Pool)
          → allowance n (pump_queue sys reqs p)
            ≤ writes n p.sent + tries n reqs + tries n (in_flight p.slots))
        → (o : Option (List Slot × Counters × Option Outcome)) → assign sys c req pool.slots ≡ o
        → Placed n c req pool.slots o
        → allowance n (pump_queue sys (req ∷ reqs) pool)
          ≤ writes n pool.sent + tries n (req ∷ reqs) + tries n (in_flight pool.slots)
    go ih none q h = rw (q, pump_queue) (omega arith)
    go ih (some (ss', c', r)) q h =
        rw (q, pump_queue)
          (omega (
            arith,
            h,
            ih (record pool {
              slots = ss';
              next_id = c'.next_id;
              next_proc = c'.next_proc;
              sent = c'.sent;
              settled = pool.settled ++ rejected req.name r;
            }),
          ))

pump-allowance :
    (sys : System) (pool : Pool) (n : ℕ)
    → All IsUntried pool.queue
    → allowance n (pump sys pool) ≤ allowance n pool
unfolding pump
pump-allowance sys pool n w = ground (arith, pump_queue-allowance sys pool.queue pool n w)

-- A handler that gives no request a try more than it had, and puts back one that has a try left.
abbrev Keeps : ℕ → (Slot → Effect) → Slot → Type 0
Keeps n h s =
    (tries n (to_list (h s).slot.current) + tries n (to_list (h s).requeue)
      ≤ tries n (to_list s.current))
    × All IsUntried (to_list (h s).requeue)

on_line-Keeps : (n p : ℕ) (line : Line) (s : Slot) → Keeps n (on_line p line) s
unfolding on_line on_current answer
on_line-Keeps n p line s = ground arith

on_timeout-Keeps : (n name : ℕ) (s : Slot) → Keeps n (on_timeout name) s
unfolding on_timeout
on_timeout-Keeps n name s = ground arith

on_exit-Keeps : (n p : ℕ) (s : Slot) → Keeps n (on_exit p) s
unfolding on_exit
on_exit-Keeps n p s = ground arith

on_spawn_error-Keeps : (n p : ℕ) (s : Slot) → Keeps n (on_spawn_error p) s
unfolding on_spawn_error
on_spawn_error-Keeps n p s = ground arith

abbrev At : ℕ → List Slot → Option (List Slot × Effect) → Type 0
At n ss none = Unit
At n ss (some (ss', e)) =
    (tries n (in_flight ss') + tries n (to_list e.requeue) ≤ tries n (in_flight ss))
    × All IsUntried (to_list e.requeue)

at_slot-At :
    (n i : ℕ) (h : Slot → Effect)
    → ((s : Slot) → Keeps n h s)
    → (ss : List Slot) → At n ss (at_slot i h ss)
unfolding at_slot
at_slot-At n zero h keeps [] = tt
at_slot-At n (suc i) h keeps [] = tt
at_slot-At n zero h keeps (s ∷ ss) = (
  omega (
    arith,
    (keeps s).0,
    tries-append n (to_list (h s).slot.current) (in_flight ss),
    tries-append n (to_list s.current) (in_flight ss),
  ),
  (keeps s).1,
)
at_slot-At n (suc i) h keeps (s ∷ ss) = lift (at_slot i h ss) (at_slot-At n i h keeps ss)
  where
    lift :
        (o : Option (List Slot × Effect))
        → At n ss o
        → At n (s ∷ ss) (elim o [ none ↦ none | some (ss', e) ↦ some (s ∷ ss', e) ])
    lift none a = tt
    lift (some (ss', e)) a = (
      omega (
        arith,
        a.0,
        tries-append n (to_list s.current) (in_flight ss'),
        tries-append n (to_list s.current) (in_flight ss),
      ),
      a.1,
    )

handle-allowance :
    (sys : System) (i : ℕ) (h : Slot → Effect) (pool : Pool) (n : ℕ)
    → ((s : Slot) → Keeps n h s)
    → All IsUntried pool.queue
    → allowance n (handle sys i h pool) ≤ allowance n pool
unfolding handle
handle-allowance sys i h pool n keeps w =
    go (at_slot i h pool.slots) refl (at_slot-At n i h keeps pool.slots)
  where
    next : List Slot → Effect → Pool
    next ss' e = record pool {
      slots = ss';
      queue = to_list e.requeue ++ pool.queue;
      settled = pool.settled ++ to_list e.outcome;
    }

    go :
        (o : Option (List Slot × Effect))
        → at_slot i h pool.slots ≡ o
        → At n pool.slots o
        → allowance n (handle sys i h pool) ≤ allowance n pool
    go none q a = rw (q, handle) (omega arith)
    go (some (ss', e)) q a =
        let less : allowance n (next ss' e) ≤ allowance n pool =
          omega (arith, a.0, tries-append n (to_list e.requeue) pool.queue) in
        let waits = All-append IsUntried (to_list e.requeue) pool.queue a.1 w in
        rw (q, handle) (ground (arith, less, pump-allowance sys (next ss' e) n waits))

close_slots-empty : (n : ℕ) (ss : List Slot) → tries n (in_flight (close_slots ss)) ≡ 0
close_slots-empty n [] = refl
close_slots-empty n (s ∷ ss) = close_slots-empty n ss

step-allowance :
    (sys : System) (pool : Pool) (e : Event) (n : ℕ)
    → All IsUntried pool.queue
    → allowance n (step sys pool e) ≤ allowance n pool + 2 * asked n e
unfolding step request close
step-allowance sys pool (requests name method) n w =
    let req : Request = record { name = name; method = method; attempts = 0; rid = 0 } in
    let pool' : Pool = record pool { queue = pool.queue ++ req ∷ [] } in
    ground (
      arith,
      pump-allowance sys pool' n (All-append IsUntried pool.queue (req ∷ []) w (omega arith, tt)),
      tries-append n pool.queue (req ∷ []),
    )
step-allowance sys pool (lines i p line) n w =
    ground (arith, handle-allowance sys i (on_line p line) pool n (on_line-Keeps n p line) w)
step-allowance sys pool (timeouts i name) n w =
    ground (arith, handle-allowance sys i (on_timeout name) pool n (on_timeout-Keeps n name) w)
step-allowance sys pool (exits i p) n w =
    ground (arith, handle-allowance sys i (on_exit p) pool n (on_exit-Keeps n p) w)
step-allowance sys pool (spawn_errors i p) n w =
    ground (arith, handle-allowance sys i (on_spawn_error p) pool n (on_spawn_error-Keeps n p) w)
step-allowance sys pool closes n w = omega (arith, close_slots-empty n pool.slots)

-- From a pool in which waiting requests have a try left, none in flight is past its second, and
-- timeouts are final after two, over any history: a request is written to a process at most twice for
-- each time that it is made, beyond the writes and the tries left that it had at the start. And waiting
-- requests still have a try left, and a timeout is reported only after exactly two.
pub run-writes :
    (pool : Pool) (es : List (System × Event)) (n : ℕ)
    → IsBounded pool
    → (writes n (run pool es).sent ≤ allowance n pool + 2 * asked_all n es)
      × IsBounded (run pool es)
unfolding run
run-writes pool [] n b = (omega arith, b)
run-writes pool ((sys, e) ∷ es) n b =
    let now = step-allowance sys pool e n b.waiting in
    let (later, bounded) = run-writes (step sys pool e) es n (step-IsBounded sys pool e b) in
    (omega (arith, now, later), bounded)

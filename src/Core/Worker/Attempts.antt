-- ===== src/Core/Worker/Attempts.antt =====
-- The attempts that the pool of src/core/worker.ts records with its requests.
use decompi.Base.{
  String, ℕ, zero, suc, ◌≤◌, ◌<◌, ◌≡◌, refl, true, false, Bool, List, [], ◌∷◌, ◌++◌, Option, none,
  some, arith, All, if◌then◌else◌,
}
use decompi.Core.Worker.{
  Request, Slot, Pool, System, Counters, Outcome, Dispatched, timeout, closed_error, Line, Effect,
  Event, requests, lines, timeouts, exits, spawn_errors, closes, reject_all, request, answer,
  on_current, on_line, on_timeout, dispatch, assign, rejected, pump_queue, pump, on_exit,
  on_spawn_error, to_list, at_slot, handle, close_slots, in_flight, close, step,
}

pub All-append :
    {A : Type 0} (P : A → Type 0) (xs ys : List A) → All P xs → All P ys → All P (xs ++ ys)
All-append P [] ys h k = k
All-append P (x ∷ xs) ys h k = (h.0, All-append P xs ys h.1 k)

-- A request that waits for a try, one that is being tried, and the end of one.
abbrev pub IsUntried : Request → Type 0
IsUntried r = r.attempts < 2

abbrev pub IsTried : Slot → Type 0
IsTried s = elim s.current [ none ↦ Unit {0} | some r ↦ r.attempts ≤ 2 ]

abbrev pub IsFinal : ℕ × Outcome → Type 0
IsFinal (name, timeout attempts) = attempts ≡ 2
IsFinal (name, _) = Unit

-- Waiting requests have a try left, none is tried more than twice, and a timeout is reported after
-- two tries.
pub record IsBounded (pool : Pool) : Type 0 where
  pub waiting : All IsUntried pool.queue
  pub tried : All IsTried pool.slots
  pub ended : All IsFinal pool.settled

dispatch-IsTried :
    (sys : System) (c : Counters) (s : Slot) (req : Request)
    → IsUntried req
    → let d = dispatch sys c s req in IsTried d.slot × All IsFinal (rejected req.name d.rejection)
unfolding dispatch
dispatch-IsTried sys c s req h = ground arith

abbrev Placed : Request → Option (List Slot × Counters × Option Outcome) → Type 0
Placed req none = Unit
Placed req (some (ss', c', r)) = All IsTried ss' × All IsFinal (rejected req.name r)

assign-Placed :
    (sys : System) (c : Counters) (req : Request) (ss : List Slot)
    → IsUntried req
    → All IsTried ss
    → Placed req (assign sys c req ss)
unfolding assign
assign-Placed sys c req [] h tried = tt
assign-Placed sys c req (s ∷ ss) h tried =
    choose s.busy (assign sys c req ss) (assign-Placed sys c req ss h tried.1)
  where
    d : Dispatched
    d = dispatch sys c s req

    choose :
        (b : Bool) (o : Option (List Slot × Counters × Option Outcome))
        → Placed req o
        → Placed req (
            if b
            then elim o [ none ↦ none | some (ss', c', r) ↦ some (s ∷ ss', c', r) ]
            else some (d.slot ∷ ss, d.counters, d.rejection))
    choose true none ih = tt
    choose true (some (ss', c', r)) ih = ((tried.0, ih.0), ih.1)
    choose false o ih = let (now, final) = dispatch-IsTried sys c s req h in ((now, tried.1), final)

pump_queue-IsBounded :
    (sys : System) (queue : List Request) (pool : Pool)
    → All IsUntried queue
    → All IsTried pool.slots
    → All IsFinal pool.settled
    → IsBounded (pump_queue sys queue pool)
unfolding pump_queue
pump_queue-IsBounded sys [] pool w t e = record { waiting = tt; tried = t; ended = e }
pump_queue-IsBounded sys (req ∷ reqs) pool w t e =
    go (λ p. pump_queue-IsBounded sys reqs p w.1) (assign sys c req pool.slots) refl
      (assign-Placed sys c req pool.slots w.0 t)
  where
    c : Counters
    c = record { next_id = pool.next_id; next_proc = pool.next_proc; sent = pool.sent }

    go :
        ((p : Pool)
          → All IsTried p.slots
          → All IsFinal p.settled
          → IsBounded (pump_queue sys reqs p))
        → (o : Option (List Slot × Counters × Option Outcome)) → assign sys c req pool.slots ≡ o
        → Placed req o
        → IsBounded (pump_queue sys (req ∷ reqs) pool)
    go ih none q h = rw (q, pump_queue) (record { waiting = w; tried = t; ended = e })
    go ih (some (ss', c', r)) q h =
        rw (q, pump_queue) (ih _ h.0 (All-append IsFinal pool.settled (rejected req.name r) e h.1))

reject_all-IsFinal : (rs : List Request) → All IsFinal (reject_all closed_error rs)
reject_all-IsFinal [] = tt
reject_all-IsFinal (r ∷ rs) = (tt, reject_all-IsFinal rs)

pub pump-IsBounded : (sys : System) (pool : Pool) → IsBounded pool → IsBounded (pump sys pool)
unfolding pump
pump-IsBounded sys pool h = choose pool.closed
  where
    choose :
        (b : Bool)
        → IsBounded (
            if b
            then record pool {
              queue = [];
              settled = pool.settled ++ reject_all closed_error pool.queue;
            }
            else pump_queue sys pool.queue pool)
    choose true = record {
      waiting = tt;
      tried = h.tried;
      ended = All-append IsFinal pool.settled _ h.ended (reject_all-IsFinal pool.queue);
    }
    choose false = pump_queue-IsBounded sys pool.queue pool h.waiting h.tried h.ended

-- A handler that keeps the bounds of its slot.
abbrev Keeps : (Slot → Effect) → Slot → Type 0
Keeps h s =
    IsTried s
    → IsTried (h s).slot
      × All IsFinal (to_list (h s).outcome)
      × All IsUntried (to_list (h s).requeue)

on_line-Keeps : (p : ℕ) (line : Line) (s : Slot) → Keeps (on_line p line) s
unfolding on_line on_current answer
on_line-Keeps p line s = ground arith

on_timeout-Keeps : (name : ℕ) (s : Slot) → Keeps (on_timeout name) s
unfolding on_timeout
on_timeout-Keeps name s = ground arith

on_exit-Keeps : (p : ℕ) (s : Slot) → Keeps (on_exit p) s
unfolding on_exit
on_exit-Keeps p s = ground arith

on_spawn_error-Keeps : (p : ℕ) (s : Slot) → Keeps (on_spawn_error p) s
unfolding on_spawn_error
on_spawn_error-Keeps p s = ground arith

abbrev At : Option (List Slot × Effect) → Type 0
At none = Unit
At (some (ss', e)) =
    All IsTried ss' × All IsFinal (to_list e.outcome) × All IsUntried (to_list e.requeue)

at_slot-At :
    (i : ℕ) (h : Slot → Effect)
    → ((s : Slot) → Keeps h s)
    → (ss : List Slot) → All IsTried ss
    → At (at_slot i h ss)
unfolding at_slot
at_slot-At zero h keeps [] t = tt
at_slot-At (suc i) h keeps [] t = tt
at_slot-At zero h keeps (s ∷ ss) t =
    let (now, final, again) = keeps s t.0 in ((now, t.1), final, again)
at_slot-At (suc i) h keeps (s ∷ ss) t = lift (at_slot i h ss) (at_slot-At i h keeps ss t.1)
  where
    lift :
        (o : Option (List Slot × Effect))
        → At o
        → At (elim o [ none ↦ none | some (ss', e) ↦ some (s ∷ ss', e) ])
    lift none a = tt
    lift (some (ss', e)) a = ((t.0, a.0), a.1, a.2)

handle-IsBounded :
    (sys : System) (i : ℕ) (h : Slot → Effect) (pool : Pool)
    → ((s : Slot) → Keeps h s)
    → IsBounded pool
    → IsBounded (handle sys i h pool)
unfolding handle
handle-IsBounded sys i h pool keeps b =
    go (at_slot i h pool.slots) refl (at_slot-At i h keeps pool.slots b.tried)
  where
    choose :
        (pool' : Pool)
        → IsBounded pool'
        → (c : Bool) → IsBounded (if c then pump sys pool' else pool')
    choose pool' after true = pump-IsBounded sys pool' after
    choose pool' after false = after

    go :
        (o : Option (List Slot × Effect))
        → at_slot i h pool.slots ≡ o
        → At o
        → IsBounded (handle sys i h pool)
    go none q a = rw (q, handle) b
    go (some (ss', e)) q a =
        let pool' : Pool = record pool {
          slots = ss';
          queue = to_list e.requeue ++ pool.queue;
          settled = pool.settled ++ to_list e.outcome;
        } in
        let after : IsBounded pool' = record {
          waiting = All-append IsUntried (to_list e.requeue) pool.queue a.2 b.waiting;
          tried = a.0;
          ended = All-append IsFinal pool.settled (to_list e.outcome) b.ended a.1;
        } in
        rw (q, handle) (choose pool' after e.pumps)

close_slots-IsTried : (ss : List Slot) → All IsTried (close_slots ss)
close_slots-IsTried [] = tt
close_slots-IsTried (s ∷ ss) = (tt, close_slots-IsTried ss)

close-IsBounded : (pool : Pool) → IsBounded pool → IsBounded (close pool)
unfolding close
close-IsBounded pool b = record {
  waiting = tt;
  tried = close_slots-IsTried pool.slots;
  ended = All-append IsFinal pool.settled _ b.ended (
      All-append IsFinal (reject_all closed_error pool.queue) _ (reject_all-IsFinal pool.queue)
        (reject_all-IsFinal (in_flight pool.slots)));
}

request-IsBounded :
    (sys : System) (name : ℕ) (method : String) (pool : Pool)
    → IsBounded pool
    → IsBounded (request sys name method pool)
unfolding request
request-IsBounded sys name method pool b = choose pool.closed
  where
    req : Request
    req = record { name = name; method = method; attempts = 0; rid = 0 }

    choose :
        (c : Bool)
        → IsBounded (
            if c
            then record pool { settled = pool.settled ++ (name, closed_error) ∷ [] }
            else pump sys (record pool { queue = pool.queue ++ req ∷ [] }))
    choose true = record {
      waiting = b.waiting;
      tried = b.tried;
      ended = All-append IsFinal pool.settled _ b.ended (tt, tt);
    }
    choose false = pump-IsBounded sys _ (record {
      waiting = All-append IsUntried pool.queue (req ∷ []) b.waiting (omega arith, tt);
      tried = b.tried;
      ended = b.ended;
    })

pub step-IsBounded :
    (sys : System) (pool : Pool) (e : Event) → IsBounded pool → IsBounded (step sys pool e)
unfolding step
step-IsBounded sys pool (requests name method) b = request-IsBounded sys name method pool b
step-IsBounded sys pool (lines i p line) b = handle-IsBounded sys i _ pool (on_line-Keeps p line) b
step-IsBounded sys pool (timeouts i name) b =
    handle-IsBounded sys i _ pool (on_timeout-Keeps name) b
step-IsBounded sys pool (exits i p) b = handle-IsBounded sys i _ pool (on_exit-Keeps p) b
step-IsBounded sys pool (spawn_errors i p) b =
    handle-IsBounded sys i _ pool (on_spawn_error-Keeps p) b
step-IsBounded sys pool closes b = close-IsBounded pool b

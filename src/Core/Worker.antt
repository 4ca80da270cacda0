-- ===== src/Core/Worker.antt =====
-- src/core/worker.ts: the pool of worker processes. A request is named by the order of its
-- `request` call, which stands for the identity of its object; a process by the order of its
-- spawn. What a promise is settled with is appended to `settled`. What the operating system decides
-- (a process has exited, a spawn throws, a write throws) is an argument, given anew for each event: the
-- handler of an event does not wait, so that it does not change meanwhile.
-- Framing of bytes into lines, stderr and the SIGTERM/SIGKILL of `close` are left out.
pub mod Dispatching
pub mod Conservation
pub mod Attempts
pub mod Tries
use decompi.Base.{
  ℕ, zero, suc, ◌+◌, Bool, true, false, List, [], ◌∷◌, ◌++◌, Option, none, some, String,
  if◌then◌else◌, ltb, ◌==◌,
}

pub record Request : Type 0 where
  pub name : ℕ
  pub method : String
  pub attempts : ℕ
  pub rid : ℕ

pub record Slot : Type 0 where
  pub proc : Option ℕ
  pub busy : Bool
  pub current : Option Request

pub data Outcome : Type 0 where
  resolved : String → Outcome
  -- `WorkerTimeoutError`, with its attempts
  timeout : ℕ → Outcome
  crash protocol_violation spawn_failure closed_error : Outcome
  rpc : String → Outcome

pub record Pool : Type 0 where
  pub slots : List Slot
  pub queue : List Request
  pub next_id : ℕ
  pub next_proc : ℕ
  pub closed : Bool
  pub settled : List (ℕ × Outcome)
  -- the requests that were written to a process, once for each write, the last first
  pub sent : List ℕ

pub record System : Type 0 where
  pub has_exited : ℕ → Bool
  pub spawn_throws : ℕ → Bool
  pub write_throws : ℕ → Bool

abbrev pub max_attempts : ℕ
max_attempts = 2

-- The two counters of a pool, and its writes.
pub record Counters : Type 0 where
  pub next_id : ℕ
  pub next_proc : ℕ
  pub sent : List ℕ

-- A slot after `dispatch`, the counters, and the request's rejection if it failed at once.
pub record Dispatched : Type 0 where
  pub slot : Slot
  pub counters : Counters
  pub rejection : Option Outcome

abbrev idle_slot : Slot
idle_slot = record { proc = none; busy = false; current = none }

-- `dispatch` behind its liveness check: write the request to the process `p`.
unfoldable pub send : System → Counters → ℕ → Request → Dispatched
send sys c p req =
    let req' : Request = record req { attempts = req.attempts + 1; rid = c.next_id } in
    let c' : Counters = record c { next_id = c.next_id + 1; sent = req.name ∷ c.sent } in
    if sys.write_throws p
    then record { slot = idle_slot; counters = c'; rejection = some crash }
    else record {
      slot = record { proc = some p; busy = true; current = some req' };
      counters = c';
      rejection = none;
    }

-- A fresh process for a dead or never-spawned slot.
unfoldable pub respawn : System → Counters → Request → Dispatched
unfolding send
respawn sys c req =
    let c' : Counters = record c { next_proc = c.next_proc + 1 } in
    if sys.spawn_throws c.next_proc
    then record { slot = idle_slot; counters = c'; rejection = some spawn_failure }
    else send sys c' c.next_proc req

unfoldable pub dispatch : System → Counters → Slot → Request → Dispatched
unfolding send respawn
dispatch sys c slot req = elim slot.proc [
  | none ↦ respawn sys c req
  | some p ↦ if sys.has_exited p then respawn sys c req else send sys c p req
]

-- `dispatch` to the first slot that is not busy; `none` if all are.
unfoldable pub assign :
    System → Counters → Request → List Slot → Option (List Slot × Counters × Option Outcome)
assign sys c req [] = none
assign sys c req (s ∷ ss) =
    let rest = assign sys c req ss in
    if s.busy
    then elim rest [ none ↦ none | some (ss', c', r) ↦ some (s ∷ ss', c', r) ]
    else let d = dispatch sys c s req in some (d.slot ∷ ss, d.counters, d.rejection)

abbrev rejected : ℕ → Option Outcome → List (ℕ × Outcome)
rejected name none = []
rejected name (some o) = (name, o) ∷ []

-- The `while` loop of `pump`, over the queue. The `pump` that a failed dispatch makes goes through
-- the rest of this loop, which then finds nothing left to do.
unfoldable pub pump_queue : System → List Request → Pool → Pool
pump_queue sys [] pool = record pool { queue = [] }
pump_queue sys (req ∷ reqs) pool =
    let c : Counters = record {
      next_id = pool.next_id;
      next_proc = pool.next_proc;
      sent = pool.sent;
    } in
    elim (assign sys c req pool.slots) [
      | none ↦ record pool { queue = req ∷ reqs }
      | some (slots', c', r) ↦ pump_queue sys reqs (record pool {
        slots = slots';
        next_id = c'.next_id;
        next_proc = c'.next_proc;
        sent = c'.sent;
        settled = pool.settled ++ rejected req.name r;
      })
    ]

abbrev pub reject_all : Outcome → List Request → List (ℕ × Outcome)
reject_all o [] = []
reject_all o (req ∷ reqs) = (req.name, o) ∷ reject_all o reqs

unfoldable pub pump : System → Pool → Pool
pump sys pool =
    let served = pump_queue sys pool.queue pool in
    if pool.closed
    then record pool { queue = []; settled = pool.settled ++ reject_all closed_error pool.queue }
    else served

unfoldable pub request : System → ℕ → String → Pool → Pool
request sys name method pool =
    let req : Request = record { name = name; method = method; attempts = 0; rid = 0 } in
    let served = pump sys (record pool { queue = pool.queue ++ req ∷ [] }) in
    if pool.closed
    then record pool { settled = pool.settled ++ (name, closed_error) ∷ [] }
    else served

-- What an event does to its slot: a settlement, a request put back at the head of the queue, and
-- whether it ends in `pump`.
pub record Effect : Type 0 where
  pub slot : Slot
  pub outcome : Option (ℕ × Outcome)
  pub requeue : Option Request
  pub pumps : Bool

abbrev pub ignored : Slot → Effect
ignored s = record { slot = s; outcome = none; requeue = none; pumps = false }

-- The request in flight is over, with this outcome; the process stays or is detached.
abbrev pub ended : Slot → Option ℕ → Outcome → Effect
ended s proc o = record {
  slot = record { proc = proc; busy = false; current = none };
  outcome = elim s.current [ none ↦ none | some req ↦ some (req.name, o) ];
  requeue = none;
  pumps = true;
}

abbrev pub is_proc : Option ℕ → ℕ → Bool
is_proc none p = false
is_proc (some q) p = q == p

-- One line of a worker's output, parsed.
pub data Line : Type 0 where
  unparseable non_object : Line
  envelope : (id : Option ℕ) (error result : Option String) → Line

-- The answer that an envelope for the request in flight gives.
unfoldable pub answer : Slot → (error result : Option String) → Effect
answer s (some message) result = ended s s.proc (rpc message)
answer s none (some value) = ended s s.proc (resolved value)
answer s none none = ended s none protocol_violation

unfoldable pub on_current : Slot → Request → Line → Effect
unfolding answer
on_current s req unparseable = ended s none protocol_violation
on_current s req non_object = ended s none protocol_violation
on_current s req (envelope id error result) =
    if is_proc id req.rid then answer s error result else ignored s

-- `onData` for one line, and `onLine`.
unfoldable pub on_line : ℕ → Line → Slot → Effect
unfolding on_current
on_line p line s = elim s.current [
  | none ↦ ignored s
  | some req ↦ if is_proc s.proc p then on_current s req line else ignored s
]

unfoldable pub on_timeout : ℕ → Slot → Effect
on_timeout name s = elim s.current [
  | none ↦ ignored s
  | some req ↦
      if req.name == name
      then if ltb req.attempts max_attempts
        then record { slot = idle_slot; outcome = none; requeue = some req; pumps = true }
        else ended s none (timeout req.attempts)
      else ignored s
]

unfoldable pub on_exit : ℕ → Slot → Effect
on_exit p s = if is_proc s.proc p then ended s none crash else ignored s

unfoldable pub on_spawn_error : ℕ → Slot → Effect
on_spawn_error p s = if is_proc s.proc p then ended s none spawn_failure else ignored s

abbrev pub to_list : {A : Type 0} → Option A → List A
to_list none = []
to_list (some a) = a ∷ []

-- An event at the slot of an index.
unfoldable pub at_slot : ℕ → (Slot → Effect) → List Slot → Option (List Slot × Effect)
at_slot i h [] = none
at_slot zero h (s ∷ ss) = let e = h s in some (e.slot ∷ ss, e)
at_slot (suc i) h (s ∷ ss) = elim (at_slot i h ss) [
  | none ↦ none
  | some (ss', e) ↦ some (s ∷ ss', e)
]

unfoldable pub handle : System → ℕ → (Slot → Effect) → Pool → Pool
handle sys i h pool = elim (at_slot i h pool.slots) [
  | none ↦ pool
  | some (slots', e) ↦
      let pool' : Pool = record pool {
        slots = slots';
        queue = to_list e.requeue ++ pool.queue;
        settled = pool.settled ++ to_list e.outcome;
      } in
      if e.pumps then pump sys pool' else pool'
]

abbrev pub close_slots : List Slot → List Slot
close_slots [] = []
close_slots (s ∷ ss) = idle_slot ∷ close_slots ss

abbrev pub in_flight : List Slot → List Request
in_flight [] = []
in_flight (s ∷ ss) = to_list s.current ++ in_flight ss

unfoldable pub close : Pool → Pool
close pool = record pool {
  closed = true;
  queue = [];
  slots = close_slots pool.slots;
  settled =
      pool.settled
      ++ (reject_all closed_error pool.queue ++ reject_all closed_error (in_flight pool.slots));
}

-- What happens to a pool.
pub data Event : Type 0 where
  requests : (name : ℕ) (method : String) → Event
  lines : (slot proc : ℕ) → Line → Event
  timeouts : (slot name : ℕ) → Event
  exits spawn_errors : (slot proc : ℕ) → Event
  closes : Event

unfoldable pub step : System → Pool → Event → Pool
step sys pool (requests name method) = request sys name method pool
step sys pool (lines i p line) = handle sys i (on_line p line) pool
step sys pool (timeouts i name) = handle sys i (on_timeout name) pool
step sys pool (exits i p) = handle sys i (on_exit p) pool
step sys pool (spawn_errors i p) = handle sys i (on_spawn_error p) pool
step sys pool closes = close pool

-- A history of a pool: events, each with what the operating system answers while it is handled. A
-- process may be alive at one event and have exited at the next.
unfoldable pub run : Pool → List (System × Event) → Pool
unfolding step
run pool [] = pool
run pool ((sys, e) ∷ es) = run (step sys pool e) es

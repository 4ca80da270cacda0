-- ===== src/Server/Semaphore.antt =====
-- `Semaphore` of src/server/scheduler.ts, which bounds the runs that are active at a time. Waiters
-- are named by the caller; `resolve(granted)` of a waiter is what an operation returns for it.
pub mod Capacity
use decompi.Base.{
  ℕ, zero, suc, ◌+◌, ◌-◌, Bool, true, false, ◌||◌, List, [], ◌∷◌, ◌++◌, Option, none, some, ◌==◌,
  if◌then◌else◌,
}

pub record Semaphore : Type 0 where
  pub slots : ℕ
  pub closed : Bool
  pub waiters : List ℕ

abbrev pub semaphore : ℕ → Semaphore
semaphore capacity = record { slots = capacity; closed = false; waiters = [] }

unfoldable pub try_acquire : Semaphore → Semaphore × Bool
try_acquire s =
    if s.closed || (s.slots == 0) then (s, false) else (record s { slots = s.slots - 1 }, true)

-- What the promise holds at once; `none` is a promise that waits.
unfoldable pub acquire : ℕ → Semaphore → Semaphore × Option Bool
unfolding try_acquire
acquire name s =
    let (s', taken) = try_acquire s in
    if taken
    then (s', some true)
    else if s.closed
    then (s, some false)
    else (record s { waiters = s.waiters ++ name ∷ [] }, none)

-- The waiter that gets the slot, if any.
unfoldable pub release : Semaphore → Semaphore × Option ℕ
release s = elim s.waiters [
  | next ∷ rest ↦ (record s { waiters = rest }, some next)
  | [] ↦ (record s { slots = s.slots + 1 }, none)
]

-- The waiters that are woken without a slot.
unfoldable pub close : Semaphore → Semaphore × List ℕ
close s = (record s { closed = true; waiters = [] }, s.waiters)

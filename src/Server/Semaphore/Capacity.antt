-- ===== src/Server/Semaphore/Capacity.antt =====
-- The slots of the semaphore of src/server/scheduler.ts, held or free.
use mathlib.Core.List.{append-nil, append_assoc}
use decompi.Base.{
  ◌∙◌, Bool-cases, ◌==◌, ℕ, zero, suc, ◌+◌, ◌≤◌, ◌≡◌, refl, Bool, true, false, List, [], ◌∷◌, ◌++◌,
  Option, none, some, arith, if◌then◌else◌, ◌⊎◌, inl, inr,
}
use decompi.Server.Semaphore.{Semaphore, semaphore, try_acquire, acquire, release, close}

-- What callers do. A slot is released only by one that holds it, so a release while no slot is held
-- is no step.
pub data Op : Type 0 where
  tries releases closes : Op
  acquires : (name : ℕ) → Op

-- The semaphore, the number of slots that callers hold, the callers that had to wait, in the order
-- of their calls, and those of them that were answered, in the order of the answers.
pub record World : Type 0 where
  pub sem : Semaphore
  pub held : ℕ
  pub arrived : List ℕ
  pub answered : List ℕ

abbrev joined : ℕ → Option Bool → List ℕ → List ℕ
joined name none arrived = arrived ++ name ∷ []
joined name (some _) arrived = arrived

abbrev more_held : Option Bool → ℕ → ℕ
more_held (some true) held = suc held
more_held (some false) held = held
more_held none held = held

unfoldable pub step : World → Op → World
unfolding try_acquire acquire release close
step w tries =
    let (s, taken) = try_acquire w.sem in
    record w { sem = s; held = if taken then suc w.held else w.held }
step w (acquires name) =
    let (s, got) = acquire name w.sem in
    record w { sem = s; held = more_held got w.held; arrived = joined name got w.arrived }
step w releases =
    let (s, next) = release w.sem in
    elim w.held [
      | zero ↦ w
      | suc held ↦ elim next [
        | none ↦ record w { sem = s; held = held }
        | some name ↦ record w { sem = s; answered = w.answered ++ name ∷ [] }
      ]
    ]
step w closes = let (s, woken) = close w.sem in record w { sem = s; answered = w.answered ++ woken }

unfoldable pub run : World → List Op → World
unfolding step
run w [] = w
run w (op ∷ ops) = run (step w op) ops

-- Every slot is held or free, a slot is free only when nobody waits, and callers are answered in
-- the order of their calls.
pub record IsFull (capacity : ℕ) (w : World) : Type 0 where
  pub slots : w.sem.slots + w.held ≡ capacity
  pub idle : (w.sem.waiters ≡ []) ⊎ (w.sem.slots ≡ 0)
  pub fifo : w.answered ++ w.sem.waiters ≡ w.arrived

tries-IsFull : (capacity : ℕ) (w : World) → IsFull capacity w → IsFull capacity (step w tries)
unfolding step try_acquire
tries-IsFull capacity w h = record {
  slots = ground (arith, h.slots);
  idle = elim h.idle [ inl e ↦ inl (ground arith) | inr e ↦ inr (ground arith) ];
  fifo = ground (arith, h.fifo);
}

acquires-IsFull :
    (capacity : ℕ) (w : World) (name : ℕ)
    → IsFull capacity w
    → IsFull capacity (step w (acquires name))
unfolding step acquire try_acquire
acquires-IsFull capacity w name h = record {
  slots = ground (arith, h.slots);
  idle = elim (Bool-cases w.sem.closed) [
    | inl c ↦ elim h.idle [ inl e ↦ inl (ground arith) | inr e ↦ inr (ground arith) ]
    | inr c ↦ elim (Bool-cases (w.sem.slots == 0)) [
      | inl z ↦ inr (ground arith)
      | inr nz ↦ elim h.idle [ inl e ↦ inl (ground arith) | inr e ↦ absurd (ground arith) ]
    ]
  ];
  fifo = ground (arith, h.fifo, append_assoc w.answered w.sem.waiters (name ∷ []));
}

releases-IsFull :
    (capacity : ℕ) (w : World) (waiters : List ℕ)
    → w.sem.waiters ≡ waiters
    → IsFull capacity w
    → IsFull capacity (step w releases)
unfolding step release
releases-IsFull capacity w [] e h = record {
  slots = ground (arith, h.slots);
  idle = inl (ground arith);
  fifo = ground (arith, h.fifo);
}
releases-IsFull capacity w (x ∷ xs) e h =
    let busy : w.sem.slots ≡ 0 = elim h.idle [
      | inl none_waits ↦ absurd (ground arith)
      | inr z ↦ z
    ] in
    record {
      slots = ground (arith, h.slots);
      idle = inr (ground arith);
      fifo = ground (arith, h.fifo, append_assoc w.answered (x ∷ []) xs);
    }

step-IsFull : (capacity : ℕ) (w : World) (op : Op) → IsFull capacity w → IsFull capacity (step w op)
unfolding step close
step-IsFull capacity w tries h = tries-IsFull capacity w h
step-IsFull capacity w (acquires name) h = acquires-IsFull capacity w name h
step-IsFull capacity w releases h = releases-IsFull capacity w w.sem.waiters refl h
step-IsFull capacity w closes h = record {
  slots = h.slots;
  idle = inl refl;
  fifo = append-nil (w.answered ++ w.sem.waiters) ∙ h.fifo;
}

run-IsFull :
    (capacity : ℕ) (ops : List Op) (w : World) → IsFull capacity w → IsFull capacity (run w ops)
unfolding run
run-IsFull capacity [] w h = h
run-IsFull capacity (op ∷ ops) w h =
    run-IsFull capacity ops (step w op) (step-IsFull capacity w op h)

-- A new semaphore, before any call.
abbrev pub fresh : ℕ → World
fresh capacity = record { sem = semaphore capacity; held = 0; arrived = []; answered = [] }

-- Whatever calls are made of a new semaphore of a capacity: the slots that callers hold and the free
-- ones add up to the capacity, a slot is free only while nobody waits, and the callers that had to
-- wait are answered, each once, in the order of their calls.
pub run-fresh :
    (capacity : ℕ) (ops : List Op)
    → let w = run (fresh capacity) ops in
      (w.held ≤ capacity)
      × (w.sem.slots + w.held ≡ capacity)
      × ((w.sem.waiters ≡ []) ⊎ (w.sem.slots ≡ 0))
      × (w.answered ++ w.sem.waiters ≡ w.arrived)
run-fresh capacity ops =
    let h : IsFull capacity (run (fresh capacity) ops) =
      run-IsFull capacity ops (fresh capacity)
        (record { slots = omega arith; idle = inl refl; fifo = refl }) in
    (omega (arith, h.slots), h.slots, h.idle, h.fifo)

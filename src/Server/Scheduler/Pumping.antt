-- ===== src/Server/Scheduler/Pumping.antt =====
-- `pump` of src/server/scheduler.ts: a rule for its loop, and that it leaves nothing to start.
use decompi.Base.{
  ℕ, zero, suc, ◌≡◌, refl, ◌≤◌, Bool, true, false, List, [], ◌∷◌, none, some, arith, Option-cases,
  inl, inr, ◌⊎◌, length, if◌then◌else◌,
}
use decompi.Server.Semaphore.{try_acquire}
use decompi.Server.Scheduler.{
  Scheduler, start_next, pump_loop, pump, begin_execution, splice, startable,
}

-- What every round keeps, the loop keeps.
module _ {ℓ} (P : Scheduler → Type ℓ)
    (round : (st st' : Scheduler) → start_next st ≡ some st' → P st → P st') where
  pub pump_loop-keeps : (fuel : ℕ) (st : Scheduler) → P st → P (pump_loop fuel st)
  unfolding pump_loop
  pump_loop-keeps zero st h = h
  pump_loop-keeps (suc fuel) st h = elim (Option-cases (start_next st)) [
    | inl e ↦ rw (e, pump_loop) h
    | inr (st', e) ↦ rw (e, pump_loop) (pump_loop-keeps fuel st' (round st st' e h))
  ]

  pub pump-keeps : (st : Scheduler) → P st → P (pump st)
  unfolding pump
  pump-keeps st h = choose st.closed
    where
      choose : (b : Bool) → P (if b then st else pump_loop (length st.queue) st)
      choose true = h
      choose false = pump_loop-keeps (length st.queue) st h

-- A started run was on the queue.
splice-length :
    (pauses ids : List ℕ) (id : ℕ)
    → startable pauses ids ≡ some id
    → length ids ≡ suc (length (splice id ids))
unfolding startable splice
splice-length pauses [] id h = cc
splice-length pauses (i ∷ ids) id h = ground (arith, splice-length pauses ids id)

start_next-length :
    (st st' : Scheduler) → start_next st ≡ some st' → length st.queue ≡ suc (length st'.queue)
unfolding start_next begin_execution
start_next-length st st' h = elim (Option-cases (startable st.pause_requests st.queue)) [
  | inl e ↦ ground arith
  | inr (id, e) ↦ ground (arith, splice-length st.pause_requests st.queue id e)
]

startable_empty : (pauses ids : List ℕ) → length ids ≡ 0 → startable pauses ids ≡ none
unfolding startable
startable_empty pauses [] h = refl
startable_empty pauses (i ∷ ids) h = absurd (omega arith)

start_next_empty : (st : Scheduler) → length st.queue ≡ 0 → start_next st ≡ none
unfolding start_next
start_next_empty st h = ground (arith, startable_empty st.pause_requests st.queue h)

pump_loop-none :
    (fuel : ℕ) (st : Scheduler) → length st.queue ≤ fuel → start_next (pump_loop fuel st) ≡ none
unfolding pump_loop
pump_loop-none zero st h = start_next_empty st (omega arith)
pump_loop-none (suc fuel) st h = elim (Option-cases (start_next st)) [
  | inl e ↦ rw (e, pump_loop) e
  | inr (st', e) ↦
      rw (e, pump_loop) (pump_loop-none fuel st' (omega (arith, start_next-length st st' e)))
]

-- Nothing can be started: no queued run without a requested pause, or no slot.
abbrev pub IsExhausted : Scheduler → Type 0
IsExhausted st = (startable st.pause_requests st.queue ≡ none) ⊎ ((try_acquire st.sem).1 ≡ false)

start_next-IsExhausted : (st : Scheduler) → start_next st ≡ none → IsExhausted st
unfolding start_next
start_next-IsExhausted st h = elim (Option-cases (startable st.pause_requests st.queue)) [
  | inl e ↦ inl e
  | inr (id, e) ↦ inr (ground arith)
]

-- The loop of `pump` ends, and not too early: after it, unless the scheduler is closed, no run waits
-- in the queue whose pause is not requested, or no slot is free.
pub pump-IsExhausted : (st : Scheduler) → (st.closed ≡ true) ⊎ IsExhausted (pump st)
unfolding pump
pump-IsExhausted st = choose st.closed refl
  where
    choose :
        (b : Bool)
        → st.closed ≡ b
        → (b ≡ true) ⊎ IsExhausted (if b then st else pump_loop (length st.queue) st)
    choose true e = inl refl
    choose false e =
        inr (start_next-IsExhausted _ (pump_loop-none (length st.queue) st (omega arith)))

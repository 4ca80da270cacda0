-- ===== src/Tests/Slots.antt =====
-- A semaphore with two slots.
use decompi.Base.{refl, ◌+◌, ◌≤◌, ◌≡◌, ◌++◌, List, [], ◌∷◌, ◌⊎◌}
use decompi.Server.Semaphore.Capacity.{
  Op, World, run, fresh, acquires, releases, tries, closes, run-fresh,
}

abbrev calls : List Op
calls = acquires 0 ∷ tries ∷ acquires 1 ∷ acquires 2 ∷ releases ∷ closes ∷ []

abbrev after : World
after = run (fresh 2) calls

run-fresh_example :
    (after.held ≤ 2)
    × (after.sem.slots + after.held ≡ 2)
    × ((after.sem.waiters ≡ []) ⊎ (after.sem.slots ≡ 0))
    × (after.answered ++ after.sem.waiters ≡ after.arrived)
run-fresh_example = run-fresh 2 calls

-- Two callers get a slot; of the next two, one gets the slot that is released.
after_waiters : (after.answered ≡ 1 ∷ 2 ∷ []) × (after.held ≡ 2)
unfolding run
after_waiters = (refl, refl)

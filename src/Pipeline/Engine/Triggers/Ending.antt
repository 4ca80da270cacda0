-- ===== src/Pipeline/Engine/Triggers/Ending.antt =====
-- Runs with triggers in src/pipeline/engine.ts end, and fire for a unit once.
use decompi.Base.{ℕ, ◌≡◌, Bool, List, Option, some, String, All}
use decompi.Pipeline.Engine.{Item}
use decompi.Pipeline.Engine.Foreach.{ScopeResult, Failure, RunState}
use decompi.Pipeline.Engine.Foreach.Endings.{Gives}
use decompi.Pipeline.Engine.Scope.{run_pipeline}
use decompi.Pipeline.Engine.Registry.{Pipeline, Engine}
use decompi.Pipeline.Engine.Triggers.{unit_complete, all_items, Session}
use decompi.Pipeline.Engine.Triggers.Fates.{one, left_over, IsWithin, Starts, Fate}
use decompi.Pipeline.Engine.Triggers.Units.{IsKeyed}
use decompi.Pipeline.Engine.Triggers.Dispatching.{Covers}

module _ {W Turn : Type 0} (e : Engine W Turn) (keys : List String) where
  -- What a run of a registered pipeline gives.
  abbrev pub Complete : String → Pipeline W Turn → Session W → Session W × ScopeResult → Type 0
  Complete id p s (s', res) =
      IsWithin keys (left_over keys s.fired_triggers) s'
      × Starts (λ t. one t id) s s'
      × ((k : String) → Fate e k s s')
      × Covers e keys (unit_complete p.triggers) p.id res s'

module _ {W Turn : Type 0} (e : Engine W Turn) (verifiers : String → Option (Item → W → W × Bool))
    (scope_fuel : ℕ) (default_model : String) (keys : List String) where
  -- Every run of a registered pipeline ends, or throws, and its items are in units with keys among `keys`.
  abbrev pub IsBounded : Type 0
  IsBounded =
      (id : String) (p : Pipeline W Turn)
      → e.pipelines id ≡ some p
      → (world : W)
      → Gives (λ (f : Failure). Unit)
          (λ (r : RunState W × ScopeResult).
            All (λ (item : Item). IsKeyed keys p.id item.unit_id) (all_items r.1))
          (run_pipeline e.fragments verifiers scope_fuel default_model p.plan p.steps world)

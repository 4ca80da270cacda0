-- ===== src/Tests/Triggering.antt =====
-- Runs of src/pipeline/engine.ts with triggers, for two pipelines whose triggers lead to each other.
use decompi.Base.{
  ℕ, ◌≡◌, refl, List, [], ◌∷◌, none, some, String, ◌===◌, str_dec, if◌then◌else◌, All,
}
use decompi.Pipeline.Engine.{Item, has_id}
use decompi.Pipeline.Engine.Foreach.{returns, Failure, RunState, ScopeResult, then_do}
use decompi.Pipeline.Engine.Foreach.Endings.{Gives}
use decompi.Pipeline.Engine.Scope.{run_pipeline, run_scope, run_step, verify_items}
use decompi.Pipeline.Engine.Registry.{Pipeline, Engine, fresh}
use decompi.Pipeline.Engine.Triggers.{
  triggered, run_start, in_unit, non_accepted, unit_complete, with_unit, units_of, run_targets,
  run_units, dispatch_to, dispatch_triggers, run_steps, trigger_key, Session, run_registered,
  all_items,
}
use decompi.Pipeline.Engine.Triggers.Units.{IsKeyed}
use decompi.Tests.Engines.{checked, verifiers, item}

abbrev in_u : Item
in_u = record (item "f" 1) { unit_id = some "u" }

-- The plan offers one item, which the verifier accepts.
abbrev leads_to : String → String → Pipeline ℕ ℕ
leads_to id to = record {
  id = id;
  plan = λ state. (state, in_u ∷ []);
  steps = checked;
  triggers = record { event = "unitComplete"; to = to } ∷ [];
  statuses = none;
  done_statuses = none;
  completion_status = none;
}

abbrev engine : Engine ℕ ℕ
engine = record fresh {
  pipelines = λ id.
      if id === "main"
      then some (leads_to "main" "tail")
      else if id === "tail"
      then some (leads_to "tail" "main")
      else none;
}

abbrev keys : List String
keys = "main:u" ∷ "tail:u" ∷ []

abbrev idle : Session ℕ
idle = record { world = 0; fired_triggers = []; log = [] }

abbrev outcome : ScopeResult
outcome = record { accepted = in_u ∷ []; rejected = []; skipped = [] }

-- Each of the two fires once.
test_rounds :
    run_registered engine verifiers 3 "m" 3 "main" idle
    ≡ some (
        returns (
          record idle {
            fired_triggers = "tail:u" ∷ "main:u" ∷ [];
            log =
                run_start "main"
                ∷ triggered "tail" "u" "main"
                ∷ run_start "tail"
                ∷ triggered "main" "u" "tail"
                ∷ run_start "main"
                ∷ [];
          },
          outcome,
        ))
unfolding run_registered run_steps dispatch_triggers dispatch_to run_units run_targets units_of
    with_unit unit_complete non_accepted in_unit trigger_key run_pipeline run_scope run_step
    verify_items then_do has_id str_dec
test_rounds = refl

abbrev IsInKeys : String → RunState ℕ × ScopeResult → Type 0
IsInKeys id r = All (λ (i : Item). IsKeyed keys id i.unit_id) (all_items r.1)

abbrev RunsOf : ℕ → Pipeline ℕ ℕ → Type 0
RunsOf world p =
    Gives (λ (f : Failure). Unit) (IsInKeys p.id)
      (run_pipeline engine.fragments verifiers 3 "m" p.plan p.steps world)

-- ===== src/Tests/Registrations.antt =====
-- Registrations of the pipeline engine of src/pipeline/engine.ts on small graphs of routes.
use mathlib.Core.Path.{subst}
use decompi.Base.{
  ap, or_else, ◌⊎◌, ◌≢◌, ℕ, ◌+◌, ◌≡◌, refl, Bool, true, false, List, [], ◌∷◌, ◌++◌, Option, none,
  some, String, ◌===◌, str_dec, arith, if◌then◌else◌,
}
use decompi.Pipeline.Engine.{Item, has_id}
use decompi.Pipeline.Engine.AgentLoop.Play.{times}
use decompi.Pipeline.Engine.Foreach.{returns, RunState, ScopeResult}
use decompi.Pipeline.Engine.Foreach.Routing.{targets}
use decompi.Pipeline.Engine.Scope.{Steps, foreach, finish, then_step, run_pipeline, start_state}
use decompi.Pipeline.Engine.Scope.Soundness.{IsSound, IsSoundSteps}
use decompi.Pipeline.Engine.Registry.{
  RouteGraph, Pipeline, Engine, registered, route_cycle, register_pipeline, register_fragment,
  reject_cycle, find_cycle, dfs, visit, entered, left, paint, popped, from_target, edges, put_edges,
  collect_route_targets, step_targets, fresh,
}
use decompi.Pipeline.Engine.Registry.Accepted.{
  Entry, pipeline as a_pipeline, fragment, register_all, registered-Partitions,
}
use decompi.Pipeline.Engine.Registry.Cycles.{IsCycle}
use decompi.Pipeline.Engine.Registry.Ending.{reject_cycle-IsCycle}
use decompi.Tests.Engines.{
  checked, verifiers, accepts_f, pipeline, planned, batches, check_there, hooks-Judges,
}

-- Two nodes that lead to each other, and one that leads to both.
abbrev graph : RouteGraph
graph = ("a", "b" ∷ []) ∷ ("b", "a" ∷ []) ∷ ("c", "a" ∷ "b" ∷ []) ∷ []

test_cycle : reject_cycle graph "c" ≡ route_cycle ("a" ∷ "b" ∷ "a" ∷ [])
unfolding reject_cycle find_cycle dfs visit entered left paint popped from_target edges str_dec
test_cycle = refl

reject_cycle-IsCycle_example :
    (reject_cycle graph "c" ≡ registered)
    ⊎ ((c : List String) × (reject_cycle graph "c" ≡ route_cycle c) × IsCycle graph c)
reject_cycle-IsCycle_example = reject_cycle-IsCycle graph "c"

-- A fragment, and a pipeline that routes to it.
abbrev main : Pipeline ℕ ℕ
main = record {
  id = "main";
  plan = planned;
  steps = pipeline;
  triggers = [];
  statuses = none;
  done_statuses = none;
  completion_status = none;
}

abbrev entries : List (Entry ℕ ℕ)
entries = fragment "again" checked ∷ a_pipeline main ∷ []

abbrev filled : Engine ℕ ℕ
filled = (register_pipeline main (register_fragment "again" checked fresh).0).0

filled_there : register_all entries fresh ≡ some filled
unfolding register_all register_pipeline register_fragment reject_cycle find_cycle dfs visit entered
    left paint popped from_target edges put_edges collect_route_targets step_targets str_dec
filled_there = refl

main_apart : (register_fragment "again" checked fresh).0.fragments "main" ≡ none
unfolding register_fragment str_dec
main_apart = refl

fragments_sound :
    (name : String) (frag : Steps ℕ ℕ)
    → filled.fragments name ≡ some frag
    → IsSoundSteps filled.fragments verifiers frag
unfolding register_pipeline register_fragment IsSound IsSoundSteps str_dec
fragments_sound name frag e = choose ("again" === name) e
  where
    choose :
        (b : Bool)
        → (if b then some checked else none) ≡ some frag
        → IsSoundSteps filled.fragments verifiers frag
    choose true k =
        subst (IsSoundSteps filled.fragments verifiers) (ap (λ o. or_else o checked) k)
          ((accepts_f, check_there), tt)
    choose false k = cc

again_registered :
    (name : String) → has_id name (targets batches.on_reject) ≡ true → filled.fragments name ≢ none
unfolding has_id register_pipeline register_fragment str_dec
again_registered name h e = ground arith

steps_sound : IsSoundSteps filled.fragments verifiers pipeline
unfolding IsSound IsSoundSteps
steps_sound = (
  tt,
  ((omega arith, refl, (λ batch state e. cc), again_registered, ((λ name. hooks-Judges), tt)), tt),
)

registered-Partitions_example :
    (fuel : ℕ) × ((default_model : String) (plan : RunState ℕ → RunState ℕ × List Item) (world : ℕ)
      → (state : RunState ℕ) × (res : ScopeResult) × (run_pipeline filled.fragments verifiers fuel
            default_model plan pipeline world
          ≡ some (returns (state, res)))
        × ((k : String)
            → times k res.accepted + times k res.rejected + times k res.skipped
              ≡ times k (plan (start_state world)).1))
registered-Partitions_example =
    registered-Partitions entries filled verifiers pipeline (main_apart, tt) filled_there
      fragments_sound steps_sound

-- A pipeline that is registered under the id of a fragment hides the routes of the fragment from the
-- check, so that two fragments that lead to each other are all accepted.
abbrev routing_to : String → Steps ℕ ℕ
routing_to name =
    then_step
      (foreach
        (record batches {
          on_reject = record { to = name; guard = none; model = none; max_attempts = none } ∷ [];
        })
        finish)
      finish

abbrev hiding : List (Entry ℕ ℕ)
hiding =
    fragment "b" (routing_to "a")
    ∷ a_pipeline (record main { id = "b"; steps = finish })
    ∷ fragment "a" (routing_to "b")
    ∷ []

cycle_of : Option (Engine ℕ ℕ) → List String
cycle_of none = []
cycle_of (some e) = elim (e.fragments "a") [
  | none ↦ []
  | some a ↦ elim (e.fragments "b") [
    | none ↦ []
    | some b ↦ collect_route_targets a ++ collect_route_targets b
  ]
]

test_hidden_cycle : cycle_of (register_all hiding fresh) ≡ "b" ∷ "a" ∷ []
unfolding cycle_of register_all register_pipeline register_fragment reject_cycle find_cycle dfs
    visit entered left paint popped from_target edges put_edges collect_route_targets step_targets
    str_dec
test_hidden_cycle = refl

-- ===== src/Tests/Engines.antt =====
-- Loops and batches of the pipeline engine of src/pipeline/engine.ts on small items.
use mathlib.Core.Path.{subst}
use decompi.Base.{
  ◌⊎◌, inl, inr, ap, or_else, ◌≢◌, ℕ, suc, ◌+◌, ◌≤◌, ◌≡◌, refl, Bool, true, false, List, [], ◌∷◌,
  ◌++◌, Option, none, some, String, ◌===◌, ◌==◌, str_dec, arith, if◌then◌else◌,
}
use decompi.Pipeline.Engine.{Item, Route, partition, has_id, ids, chunk, chunk_loop}
use decompi.Pipeline.Engine.AgentLoop.{Run, Hooks, StepExec, agent_loop}
use decompi.Pipeline.Engine.AgentLoop.Play.{times, done_ids, Judges, agent_loop-split}
use decompi.Pipeline.Engine.Foreach.{
  then_do, Running, no_fragment, Failure, Outcome, returns, RunState, ScopeResult, ForeachStep,
  Runner, run_foreach, run_source, run_queue, run_fragments, run_window, draw, route_items,
  route_item, match_route, route_matches, routed_before, bump_attempt, route_budget_exceeded,
  put_bucket, not_among,
}
use decompi.Pipeline.Engine.Scope.{
  Steps, verify, gate, foreach, agent_loops, finish, then_step, run_pipeline,
}
use decompi.Pipeline.Engine.Scope.Soundness.{depth, depth_steps, IsSound, IsSoundSteps, AreSound}
use decompi.Pipeline.Engine.Scope.Whole.{run_pipeline-Partitions}
use decompi.Pipeline.Engine.Foreach.Batches.{Sized, queue_times, queue_length, partition-Sized}
use decompi.Pipeline.Engine.Foreach.Endings.{Gives, Partitions}
use decompi.Pipeline.Engine.Foreach.Routing.{targets}
use decompi.Pipeline.Engine.Foreach.Items.{Keeps, run_foreach-Partitions}

abbrev pub item : String → ℕ → Item
item id size = record {
  id = id;
  unit_id = some "u";
  status = "pending";
  size = some size;
  attempts = 0;
  field_of = λ k. none;
}

abbrev pub items : List Item
items = item "f" 5 ∷ item "g" 50 ∷ item "h" 7 ∷ []

-- The first verdict accepts nothing, a later one all; the model finishes `h` in its first turn.
abbrev pub hooks : Hooks ℕ ℕ
hooks = record {
  start = λ xs w. (w, "start");
  prompt = λ text w. (suc w, (if w == 0 then "h" ∷ [] else [], w));
  reprompt = λ xs turn w. (
    w,
    record { accepted = if turn == 0 then [] else xs; feedback = some "more"; final = false },
  );
  complete = none;
  finalize = λ x action w. w;
  completion_status = some "DONE";
}

pub hooks-Judges : Judges hooks
hooks-Judges xs turn w k = choose (turn == 0)
  where
    choose :
        (b : Bool)
        → (times k (if b then [] else xs) ≡ times k xs) ⊎ (times k (if b then [] else xs) ≡ 0)
    choose true = inr refl
    choose false = inl refl

abbrev start_run : Run ℕ
start_run = record { world = 0; finalized = [] }

agent_loop-split_example :
    (out : Run ℕ × StepExec) × (agent_loop hooks 1 items start_run ≡ some out)
    × ((k : String) → times k out.1.accepted + times k out.1.rejected ≡ times k items)
    × (done_ids out.0 ≡ [] ++ ids out.1.accepted)
agent_loop-split_example = agent_loop-split hooks 1 items start_run hooks-Judges

partition-Sized_example :
    Sized 2 (partition items 2 (some "unit"))
    × ((k : String) → queue_times k (partition items 2 (some "unit")) ≡ times k items)
    × (queue_length (partition items 2 (some "unit")) ≡ 3)
partition-Sized_example = partition-Sized items 2 (some "unit") (omega arith)

-- The world of a run is the models that its fragments ran on.
abbrev Models : Type 0
Models = List (Option String)

abbrev takes_all :
    Option String → List Item → RunState Models → Running (RunState Models × ScopeResult)
takes_all model xs state = some (
    returns (
      (record state { world = model ∷ state.world }),
      record { accepted = xs; rejected = []; skipped = [] },
    ))

-- A body that rejects its items, and one fragment that accepts them.
abbrev runner : Runner Models
runner = record {
  body =
      λ cfg xs state. some (returns (state, record { accepted = []; rejected = xs; skipped = [] }));
  fragment = λ name. if name === "again" then some takes_all else none;
}

-- Nothing else can fail than a fragment that is not registered.
abbrev Blame : Failure → Type 0
Blame e = e ≡ no_fragment

runner-keeps_fragment :
    (b : Bool)
    (run_fragment : Option String
      → List Item
      → RunState Models
      → Running (RunState Models × ScopeResult))
    → (if b then some takes_all else none) ≡ some run_fragment
    → (model : Option String) (xs : List Item) (state : RunState Models)
    → Gives Blame (Partitions xs) (run_fragment model xs state)
runner-keeps_fragment true run_fragment e model xs state =
    subst (λ f. Gives Blame (Partitions xs) (f model xs state)) (ap (λ o. or_else o takes_all) e)
      (_, refl, λ k. omega arith)
runner-keeps_fragment false run_fragment e model xs state = cc

abbrev small_route : Route
small_route = record {
  to = "again";
  guard = some (record { size_below = some 10; status = none; attempts = none });
  model = some "small-model";
  max_attempts = none;
}

abbrev pub any_route : Route
any_route = record { to = "again"; guard = none; model = some "large-model"; max_attempts = some 1 }

abbrev two_routes : ForeachStep Models
two_routes = record {
  from = none;
  batch = 2;
  key = none;
  on_reject = small_route ∷ any_route ∷ [];
  setup = none;
}

abbrev idle : RunState Models
idle = record { world = []; attempts = []; bindings = λ name. none; finalized = [] }

two_routes-Keeps : Keeps Blame two_routes runner
two_routes-Keeps = record {
  body = λ cfg xs state. (_, refl, λ k. omega arith);
  fragment = λ name run_fragment led e model xs state.
      runner-keeps_fragment (name === "again") run_fragment e model xs state;
  unregistered = λ name led e. refl;
  no_items = λ batch state e. cc;
}

run_foreach-Partitions_example :
    Gives Blame (Partitions items) (run_foreach two_routes runner items idle)
run_foreach-Partitions_example =
    run_foreach-Partitions Blame two_routes runner items items idle two_routes-Keeps (omega arith)
      refl

-- Two routes to one fragment share its run, on the model of the route that came first.
models_of : Option (Outcome (RunState Models × ScopeResult)) → Models
models_of (some (returns (state, res))) = state.world
models_of _ = []

test_shared_model : models_of (run_foreach two_routes runner items idle) ≡ some "small-model" ∷ []
unfolding models_of run_foreach run_source run_queue run_fragments then_do run_window draw
    route_items route_item match_route route_matches routed_before bump_attempt
    route_budget_exceeded put_bucket not_among partition chunk chunk_loop has_id str_dec
test_shared_model = refl

-- Two steps that have a route of the same index and target share its budget.
abbrev one_route : ForeachStep Models
one_route = record two_routes { on_reject = any_route ∷ [] }

state_of : Option (Outcome (RunState Models × ScopeResult)) → RunState Models
state_of (some (returns (state, res))) = state
state_of _ = idle

rejected_of : Option (Outcome (RunState Models × ScopeResult)) → List String
rejected_of (some (returns (state, res))) = ids res.rejected
rejected_of _ = []

test_shared_budget :
    rejected_of
      (run_foreach one_route runner items (state_of (run_foreach one_route runner items idle)))
    ≡ "f" ∷ "g" ∷ "h" ∷ []
unfolding rejected_of state_of run_foreach run_source run_queue run_fragments then_do run_window
    draw route_items route_item match_route route_matches routed_before bump_attempt
    route_budget_exceeded put_bucket not_among partition chunk chunk_loop has_id str_dec
test_shared_budget = refl

-- A pipeline: batches of two go through an agent loop, what it leaves goes once more through `again`,
-- where a verifier accepts `f` alone.
abbrev pub checked : Steps ℕ ℕ
checked = then_step (verify "check") finish

abbrev fragments : String → Option (Steps ℕ ℕ)
fragments name = if name === "again" then some checked else none

abbrev pub accepts_f : Item → ℕ → ℕ × Bool
accepts_f x w = (w, x.id === "f")

abbrev pub verifiers : String → Option (Item → ℕ → ℕ × Bool)
verifiers name = if name === "check" then some accepts_f else none

abbrev pub batches : ForeachStep ℕ
batches = record { from = none; batch = 2; key = none; on_reject = any_route ∷ []; setup = none }

abbrev pub pipeline : Steps ℕ ℕ
pipeline = then_step (gate (λ xs state. (state, true))) (
    then_step (foreach batches (then_step (agent_loops none (some 1) (λ name. hooks)) finish))
      finish)

abbrev pub planned : RunState ℕ → RunState ℕ × List Item
planned state = (state, items)

pub check_there : verifiers "check" ≡ some accepts_f
unfolding str_dec
check_there = refl

again_there :
    (name : String) → has_id name (targets batches.on_reject) ≡ true → fragments name ≢ none
unfolding has_id
again_there name h e = ground arith

checked-IsSound : IsSoundSteps fragments verifiers checked
unfolding IsSound IsSoundSteps
checked-IsSound = ((accepts_f, check_there), tt)

checked_depth : depth_steps (λ n. 0) checked ≤ 0
unfolding depth depth_steps
checked_depth = omega arith

pipeline-IsSound : IsSoundSteps fragments verifiers pipeline
unfolding IsSound IsSoundSteps
pipeline-IsSound = (
  tt,
  ((omega arith, refl, (λ batch state e. cc), again_there, ((λ name. hooks-Judges), tt)), tt),
)

pipeline_depth : depth_steps (λ n. 0) pipeline ≤ 1
unfolding depth depth_steps
pipeline_depth = omega arith

fragments-AreSound : AreSound fragments verifiers (λ name. 0)
fragments-AreSound name steps e = choose (name === "again") e
  where
    choose :
        (b : Bool)
        → (if b then some checked else none) ≡ some steps
        → IsSoundSteps fragments verifiers steps × (depth_steps (λ n. 0) steps ≤ 0)
    choose true k =
        subst (λ s. IsSoundSteps fragments verifiers s × (depth_steps (λ n. 0) s ≤ 0))
          (ap (λ o. or_else o checked) k) (checked-IsSound, checked_depth)
    choose false k = cc

run_pipeline-Partitions_example :
    (state : RunState ℕ) × (res : ScopeResult) × (run_pipeline fragments verifiers 1 "mock" planned
        pipeline 0
      ≡ some (returns (state, res)))
    × ((k : String)
        → times k res.accepted + times k res.rejected + times k res.skipped ≡ times k items)
run_pipeline-Partitions_example =
    run_pipeline-Partitions fragments verifiers (λ name. 0) 1 "mock" planned pipeline 0
      fragments-AreSound pipeline-IsSound pipeline_depth

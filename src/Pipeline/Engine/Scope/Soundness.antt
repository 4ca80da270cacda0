-- ===== src/Pipeline/Engine/Scope/Soundness.antt =====
-- What the pipelines of src/pipeline/engine.ts rely on: their hooks, and routes that end.
use decompi.Base.{
  ℕ, suc, ◌+◌, ◌≤◌, ◌≡◌, ◌≢◌, Bool, true, List, [], ◌∷◌, Option, none, some, String, arith,
}
use decompi.Pipeline.Engine.{Item, Route, has_id}
use decompi.Pipeline.Engine.AgentLoop.Play.{times, Judges}
use decompi.Pipeline.Engine.Foreach.{RunState, set_up}
use decompi.Pipeline.Engine.Foreach.Routing.{targets}
use decompi.Pipeline.Engine.Scope.{
  Step, Steps, verify, transform, agent_loops, foreach, finish, then_step,
}

abbrev pub max_rank : (String → ℕ) → List Route → ℕ
max_rank rank [] = 0
max_rank rank (route ∷ routes) = rank route.to + max_rank rank routes

pub max_rank_le :
    (rank : String → ℕ) (routes : List Route) (name : String)
    → has_id name (targets routes) ≡ true
    → rank name ≤ max_rank rank routes
unfolding has_id
max_rank_le rank [] name h = cc
max_rank_le rank (route ∷ routes) name h = ground (arith, max_rank_le rank routes name)

module _ {W Turn : Type 0} where
  unfoldable mutual
    -- How deep the scopes of a step go, where `rank` is a depth of each fragment.
    pub depth : (String → ℕ) → Step W Turn → ℕ
    depth rank (foreach step steps) = suc (depth_steps rank steps + max_rank rank step.on_reject)
    depth rank _ = 0

    pub depth_steps : (String → ℕ) → Steps W Turn → ℕ
    depth_steps rank finish = 0
    depth_steps rank (then_step step steps) = depth rank step + depth_steps rank steps

module _ {W Turn : Type 0} (fragments : String → Option (Steps W Turn))
    (verifiers : String → Option (Item → W → W × Bool)) where
  unfoldable mutual
    -- What a step relies on: its verifier is there, its transform keeps the items, its verdicts accept,
    -- of each id, the items in play or none, and a `foreach` runs over the items of its scope, in
    -- batches of at least one item, with routes to registered fragments.
    pub IsSound : Step W Turn → Type 0
    IsSound (verify name) = (verifier : Item → W → W × Bool) × (verifiers name ≡ some verifier)
    IsSound (transform fn) =
        (items : List Item) (state : RunState W) (k : String)
        → times k (fn items state).1 ≡ times k items
    IsSound (agent_loops model retries hooks) = (name : String) → Judges (hooks name)
    IsSound (foreach step steps) =
        (1 ≤ step.batch)
        × (step.from ≡ none)
        × ((batch : List Item) (state : RunState W)
            → (set_up step.setup batch state).1.batch_size ≢ some 0)
        × ((name : String) → has_id name (targets step.on_reject) ≡ true → fragments name ≢ none)
        × IsSoundSteps steps
    IsSound _ = Unit

    pub IsSoundSteps : Steps W Turn → Type 0
    IsSoundSteps finish = Unit
    IsSoundSteps (then_step step steps) = IsSound step × IsSoundSteps steps

  -- The fragments are sound, and no fragment reaches itself: a route leads to a lower rank.
  abbrev pub AreSound : (String → ℕ) → Type 0
  AreSound rank =
      (name : String) (steps : Steps W Turn)
      → fragments name ≡ some steps
      → IsSoundSteps steps × (depth_steps rank steps ≤ rank name)

-- ===== src/Pipeline/Engine/Scope.antt =====
-- Scopes and steps of src/pipeline/engine.ts, and a run of a pipeline. What a step calls outside the
-- engine is a parameter: an agent's turn, a shell command, a verifier, a transform, a gate's predicate,
-- a selection and the hooks of an agent loop. The last agent turn is part of the world of these, and
-- the log is left out.
pub mod Soundness
pub mod Whole
use decompi.Base.{
  ℕ, zero, suc, Bool, true, false, List, [], ◌∷◌, ◌++◌, Option, none, some, String, ◌===◌, or_else,
  if◌then◌else◌,
}
use decompi.Pipeline.Engine.{Item}
use decompi.Pipeline.Engine.AgentLoop.{Run, Hooks, StepExec, agent_loop}
use decompi.Pipeline.Engine.Foreach.{
  Failure, Outcome, returns, throws, Running, then_do, RunState, WorkflowConfig, ScopeResult,
  ForeachStep, Runner, run_foreach, unknown_verifier,
}

-- The model that a scope works on, and the retries that a `setup` set for it.
pub record RunCtx : Type 0 where
  pub model : String
  pub rejection_retries_override : Option ℕ

mutual
  pub data Step (W Turn : Type 0) : Type 0 where
    agent : (model : Option String) → (String → List Item → RunState W → RunState W) → Step W Turn
    shell : (List Item → RunState W → RunState W) → Step W Turn
    verify : (verifier : String) → Step W Turn
    transform : (List Item → RunState W → RunState W × List Item) → Step W Turn
    selects : (into : String) → (RunState W → RunState W × List Item) → Step W Turn
    gate : (List Item → RunState W → RunState W × Bool) → Step W Turn
    agent_loops :
        (model : Option String)
        → (rejection_retries : Option ℕ) → (String → Hooks W Turn)
        → Step W Turn
    foreach : ForeachStep W → Steps W Turn → Step W Turn

  pub data Steps (W Turn : Type 0) : Type 0 where
    finish : Steps W Turn
    then_step : Step W Turn → Steps W Turn → Steps W Turn

-- `aborted`: a gate was false.
pub record StepResult : Type 0 where
  pub accepted : List Item
  pub rejected : List Item
  pub skipped : List Item
  pub aborted : Bool

-- A step that leaves every item in play.
abbrev pub all_stay : List Item → StepResult
all_stay items = record { accepted = []; rejected = items; skipped = []; aborted = false }

-- The items of a scope: those that are in play, and those that have left it.
abbrev pub prepended :
    {W : Type 0}
    → List Item
    → List Item
    → Running (RunState W × ScopeResult)
    → Running (RunState W × ScopeResult)
prepended accepted skipped o = then_do o (λ (state, res). some (
    returns (
      state,
      record {
        accepted = accepted ++ res.accepted;
        rejected = res.rejected;
        skipped = skipped ++ res.skipped;
      },
    )))

module _ {W Turn : Type 0} where
  -- `runScope`, with `run_step` for its steps.
  unfoldable pub run_scope :
      (Step W Turn → List Item → RunState W → Running (RunState W × StepResult))
      → Steps W Turn
      → List Item
      → RunState W
      → Running (RunState W × ScopeResult)
  unfolding then_do
  run_scope run_step finish items state =
      some (returns (state, record { accepted = []; rejected = items; skipped = [] }))
  run_scope run_step (then_step step steps) items state =
      then_do (run_step step items state) (λ (state', exec).
        let rest = run_scope run_step steps exec.rejected state' in
        if exec.aborted
        then some (
            returns
              (state', record { accepted = exec.accepted; rejected = []; skipped = exec.skipped }))
        else prepended exec.accepted exec.skipped rest)

-- `??`
abbrev either_option : {A : Type 0} → Option A → Option A → Option A
either_option none y = y
either_option (some x) y = some x

unfoldable pub verify_items :
    {W : Type 0}
    → (Item → W → W × Bool)
    → List Item
    → RunState W
    → RunState W × (List Item × List Item)
verify_items verifier [] state = (state, ([], []))
verify_items verifier (item ∷ items) state =
    let (world, accepts) = verifier item state.world in
    let (state', (accepted, rejected)) =
      verify_items verifier items (record state { world = world }) in
    if accepts then (state', (item ∷ accepted, rejected)) else (state', (accepted, item ∷ rejected))

abbrev pub loop_result :
    {W : Type 0} → RunState W → Option (Run W × StepExec) → Running (RunState W × StepResult)
loop_result state none = none
loop_result state (some (run, exec)) = some (
    returns (
      record state { world = run.world; finalized = run.finalized },
      record { accepted = exec.accepted; rejected = exec.rejected; skipped = []; aborted = false },
    ))

-- The state that a run starts in.
abbrev pub start_state : {W : Type 0} → W → RunState W
start_state world = record { world = world; attempts = []; bindings = λ name. none; finalized = [] }

-- The registered fragments, and the verifiers of a run.
module _ {W Turn : Type 0} (fragments : String → Option (Steps W Turn))
    (verifiers : String → Option (Item → W → W × Bool)) where
  abbrev pub scope_result : Running (RunState W × ScopeResult) → Running (RunState W × StepResult)
  scope_result o = then_do o (λ (state, res). some (
      returns (
        state,
        record {
          accepted = res.accepted;
          rejected = res.rejected;
          skipped = res.skipped;
          aborted = false;
        },
      )))

  -- The body and the fragments of a `foreach`, with `run_step` for their steps.
  abbrev pub runner_of :
      (RunCtx → Step W Turn → List Item → RunState W → Running (RunState W × StepResult))
      → RunCtx
      → Steps W Turn
      → Runner W
  runner_of run_step ctx steps = record {
    body = λ cfg window state.
        run_scope
          (run_step (record {
            model = or_else cfg.model ctx.model;
            rejection_retries_override =
                either_option cfg.rejection_retries ctx.rejection_retries_override;
          }))
          steps window state;
    fragment = λ name. elim (fragments name) [
      | none ↦ none
      | some frag ↦ some (λ model items state.
          run_scope
            (run_step
              (record { model = or_else model ctx.model; rejection_retries_override = none }))
            frag items state)
    ];
  }

  -- `runStep`; a `foreach` needs fuel for the scopes that it runs.
  unfoldable pub run_step :
      ℕ → RunCtx → Step W Turn → List Item → RunState W → Running (RunState W × StepResult)
  unfolding run_scope verify_items then_do
  run_step fuel ctx (agent model turn) [] state = some (returns (state, all_stay []))
  run_step fuel ctx (agent model turn) (item ∷ items) state =
      some (returns (turn (or_else model ctx.model) (item ∷ items) state, all_stay (item ∷ items)))
  run_step fuel ctx (shell command) items state =
      some (returns (command items state, all_stay items))
  run_step fuel ctx (verify name) items state = elim (verifiers name) [
    | none ↦ some (throws unknown_verifier)
    | some verifier ↦
        let (state', (accepted, rejected)) = verify_items verifier items state in
        some (
          returns (
            state',
            record { accepted = accepted; rejected = rejected; skipped = []; aborted = false },
          ))
  ]
  run_step fuel ctx (transform fn) items state =
      let (state', items') = fn items state in some (returns (state', all_stay items'))
  run_step fuel ctx (selects into select) items state =
      let (state', found) = select state in
      some (
        returns (
          record state' {
            bindings = λ name. if name === into then some found else state'.bindings name;
          },
          all_stay items,
        ))
  run_step fuel ctx (gate when) items state =
      let (state', pass) = when items state in
      some (
        returns (
          state',
          if pass
              then all_stay items
              else record { accepted = []; rejected = []; skipped = items; aborted = true },
        ))
  run_step fuel ctx (agent_loops model rejection_retries hooks) items state = loop_result state (
      agent_loop (hooks (or_else model ctx.model))
        (or_else ctx.rejection_retries_override (or_else rejection_retries 1)) items
        (record { world = state.world; finalized = state.finalized }))
  run_step zero ctx (foreach step steps) items state = none
  run_step (suc fuel) ctx (foreach step steps) items state =
      scope_result (run_foreach step (runner_of (λ c. run_step fuel c) ctx steps) items state)

  -- A run of a pipeline, without the triggers that it fires at its end.
  unfoldable pub run_pipeline :
      ℕ
      → (default_model : String) → (RunState W → RunState W × List Item)
      → Steps W Turn
      → W
      → Running (RunState W × ScopeResult)
  unfolding run_step run_scope
  run_pipeline fuel default_model plan steps world =
      let (state, initial) = plan (start_state world) in
      run_scope
        (run_step fuel (record { model = default_model; rejection_retries_override = none })) steps
        initial state

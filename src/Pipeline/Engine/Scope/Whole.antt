-- ===== src/Pipeline/Engine/Scope/Whole.antt =====
-- That a run of a pipeline in src/pipeline/engine.ts ends, and neither loses nor doubles an item.
use mathlib.Core.Path.{subst}
use decompi.Base.{
  ℕ, zero, suc, ◌+◌, ◌≤◌, ◌≡◌, refl, sym, ap, Bool, true, false, List, [], ◌∷◌, Option, none, some,
  String, if◌then◌else◌, arith, or_else,
}
use decompi.Pipeline.Engine.{Item}
use decompi.Pipeline.Engine.AgentLoop.{Hooks}
use decompi.Pipeline.Engine.AgentLoop.Play.{times, times-append, Judges, agent_loop-split}
use decompi.Pipeline.Engine.Foreach.{
  unchanged_by, WorkflowConfig, unknown_verifier, source_of, Failure, returns, throws, Running,
  RunState, ScopeResult, ForeachStep, run_foreach,
}
use decompi.Pipeline.Engine.Foreach.Endings.{Gives, then_do-Gives, Partitions}
use decompi.Pipeline.Engine.Foreach.Items.{Keeps, run_foreach-Partitions}
use decompi.Pipeline.Engine.Scope.{
  start_state, either_option, RunCtx, Step, Steps, StepResult, agent, shell, verify, transform,
  selects, gate, agent_loops, foreach, finish, then_step, all_stay, prepended, run_scope,
  verify_items, loop_result, runner_of, run_step, run_pipeline,
}
use decompi.Pipeline.Engine.Scope.Soundness.{
  max_rank_le, depth, depth_steps, IsSound, IsSoundSteps, AreSound,
}

-- No failure has anything to blame on.
abbrev Never : Failure → Type 0
Never e = ⊥

module _ {W Turn : Type 0} (fragments : String → Option (Steps W Turn))
    (verifiers : String → Option (Item → W → W × Bool)) where
  -- A step keeps its items, and leaves none in play where it aborts.
  abbrev StepKeeps : List Item → RunState W × StepResult → Type 0
  StepKeeps items (state, exec) =
      ((k : String)
        → times k exec.accepted + times k exec.rejected + times k exec.skipped ≡ times k items)
      × (exec.aborted ≡ true → (k : String) → times k exec.rejected ≡ 0)

  verify_items-times :
      (verifier : Item → W → W × Bool) (items : List Item) (state : RunState W) (k : String)
      → let (accepted, rejected) = (verify_items verifier items state).1 in
        times k accepted + times k rejected ≡ times k items
  unfolding verify_items
  verify_items-times verifier [] state k = refl
  verify_items-times verifier (item ∷ items) state k = ground (
    arith,
    verify_items-times verifier items (record state { world = (verifier item state.world).0 }) k,
  )

  -- What a scope is left with after a step.
  abbrev left_with :
      Bool
      → RunState W
      → StepResult
      → Running (RunState W × ScopeResult)
      → Running (RunState W × ScopeResult)
  left_with aborted state exec rest =
      if aborted
      then some (
          returns
            (state, record { accepted = exec.accepted; rejected = []; skipped = exec.skipped }))
      else prepended exec.accepted exec.skipped rest

  left_with-Partitions :
      (aborted : Bool) (items : List Item) (state : RunState W) (exec : StepResult)
      (rest : Running (RunState W × ScopeResult))
      → ((k : String)
          → times k exec.accepted + times k exec.rejected + times k exec.skipped ≡ times k items)
      → (aborted ≡ true → (k : String) → times k exec.rejected ≡ 0)
      → Gives Never (Partitions exec.rejected) rest
      → Gives Never (Partitions items) (left_with aborted state exec rest)
  left_with-Partitions true items state exec rest sums stops h =
      (_, refl, λ k. omega (arith, sums k, stops refl k))
  left_with-Partitions false items state exec rest sums stops h =
      then_do-Gives Never (Partitions exec.rejected) _ rest _ h (λ (state', res) all. (
        _,
        refl,
        λ k. omega (
          arith,
          all k,
          sums k,
          times-append k exec.accepted res.accepted,
          times-append k exec.skipped res.skipped,
        ),
      ))

  -- A scope, where its steps keep their items.
  scope-Partitions :
      (rank : String → ℕ) (fuel : ℕ)
      (R : Step W Turn → List Item → RunState W → Running (RunState W × StepResult))
      → ((step : Step W Turn) (items : List Item) (state : RunState W)
          → IsSound fragments verifiers step
          → depth rank step ≤ fuel
          → Gives Never (StepKeeps items) (R step items state))
      → (steps : Steps W Turn) (items : List Item) (state : RunState W)
      → IsSoundSteps fragments verifiers steps
      → depth_steps rank steps ≤ fuel
      → Gives Never (Partitions items) (run_scope R steps items state)
  unfolding run_scope depth depth_steps IsSound IsSoundSteps
  scope-Partitions rank fuel R each finish items state sound deep = (_, refl, λ k. omega arith)
  scope-Partitions rank fuel R each (then_step step steps) items state sound deep =
      then_do-Gives Never _ _ (R step items state) _ (each step items state sound.0 (omega arith))
        (λ (state', exec) (sums, stops).
          left_with-Partitions exec.aborted items state' exec _ sums stops
            (scope-Partitions rank fuel R each steps exec.rejected state' sound.1 (omega arith)))

  loop-Keeps :
      (model : Option String) (retries : Option ℕ) (hooks : String → Hooks W Turn) (fuel : ℕ)
      (ctx : RunCtx) (items : List Item) (state : RunState W)
      → ((name : String) → Judges (hooks name))
      → Gives Never
          (StepKeeps items)
          (run_step fragments verifiers fuel ctx (agent_loops model retries hooks) items state)
  unfolding run_step
  loop-Keeps model retries hooks fuel ctx items state judges =
      let (out, there, sums, calls) =
        agent_loop-split (hooks (or_else model ctx.model))
          (or_else ctx.rejection_retries_override (or_else retries 1)) items
          (record { world = state.world; finalized = state.finalized })
          (judges (or_else model ctx.model)) in
      (
        _,
        ap (loop_result state) there,
        ((λ k. omega (arith, sums k)), λ e k. absurd (ground arith)),
      )

  verify-Keeps :
      (name : String) (fuel : ℕ) (ctx : RunCtx) (items : List Item) (state : RunState W)
      (verifier : Item → W → W × Bool)
      → verifiers name ≡ some verifier
      → Gives Never
          (StepKeeps items)
          (run_step fragments verifiers fuel ctx (verify name) items state)
  unfolding run_step
  verify-Keeps name fuel ctx items state verifier e =
      subst (λ o. Gives Never (StepKeeps items) (after o)) (sym e)
        (
          _,
          refl,
          (
            (λ k. omega (arith, verify_items-times verifier items state k)),
            λ c k. absurd (ground arith),
          ),
        )
    where
      after : Option (Item → W → W × Bool) → Running (RunState W × StepResult)
      after none = some (throws unknown_verifier)
      after (some v) =
          let (state', (accepted, rejected)) = verify_items v items state in
          some (
            returns (
              state',
              record { accepted = accepted; rejected = rejected; skipped = []; aborted = false },
            ))

  gate-Keeps :
      (when : List Item → RunState W → RunState W × Bool) (fuel : ℕ) (ctx : RunCtx)
      (items : List Item) (state : RunState W)
      → Gives Never
          (StepKeeps items)
          (run_step fragments verifiers fuel ctx (gate when) items state)
  unfolding run_step
  gate-Keeps when fuel ctx items state = choose (when items state).1
    where
      after : Bool → StepResult
      after pass =
          if pass
          then all_stay items
          else record { accepted = []; rejected = []; skipped = items; aborted = true }

      choose :
          (b : Bool)
          → Gives Never (StepKeeps items) (some (returns ((when items state).0, after b)))
      choose true = (_, refl, ((λ k. omega arith), λ e k. absurd (ground arith)))
      choose false = (_, refl, ((λ k. omega arith), λ e k. refl))

  -- A `foreach`, where the steps of its body and its fragments keep their items.
  module _ (rank : String → ℕ) (sound_fragments : AreSound fragments verifiers rank) (fuel : ℕ)
      (each : (ctx : RunCtx) (step : Step W Turn) (items : List Item) (state : RunState W)
        → IsSound fragments verifiers step
        → depth rank step ≤ fuel
        → Gives Never
            (StepKeeps items)
            (run_step fragments verifiers fuel ctx step items state)) where
    fragment-Gives :
        (ctx : RunCtx) (name : String) (o : Option (Steps W Turn))
        (f : Option String → List Item → RunState W → Running (RunState W × ScopeResult))
        → fragments name ≡ o
        → rank name ≤ fuel
        → elim o
            as (λ _.
              Option
                (Option String → List Item → RunState W → Running (RunState W × ScopeResult))) [
                  | none ↦ none
                  | some frag ↦ some (λ model items state.
                      run_scope
                        (run_step fragments verifiers fuel (record {
                          model = or_else model ctx.model;
                          rejection_retries_override = none;
                        }))
                        frag
                        items
                        state)
                ]
          ≡ some f
        → (model : Option String) (items : List Item) (state : RunState W)
        → Gives Never (Partitions items) (f model items state)
    fragment-Gives ctx name none f e low h model items state = cc
    fragment-Gives ctx name (some frag) f e low h model items state =
        let c : RunCtx = record {
          model = or_else model ctx.model;
          rejection_retries_override = none;
        } in
        let (sound, deep) = sound_fragments name frag e in
        subst (λ g. Gives Never (Partitions items) (g model items state))
          (ap
            (λ q. or_else q (λ model' items' state'.
              run_scope
                (run_step fragments verifiers fuel
                  (record { model = or_else model' ctx.model; rejection_retries_override = none }))
                frag items' state'))
            h)
          (scope-Partitions rank fuel (run_step fragments verifiers fuel c) (each c) frag items
            state sound (omega (arith, deep, low)))

    foreach-Keeps :
        (ctx : RunCtx) (step : ForeachStep W) (steps : Steps W Turn) (items : List Item)
        (state : RunState W)
        → IsSound fragments verifiers (foreach step steps)
        → depth rank (foreach step steps) ≤ suc fuel
        → Gives Never
            (StepKeeps items)
            (run_step fragments verifiers (suc fuel) ctx (foreach step steps) items state)
    unfolding run_step depth IsSound
    foreach-Keeps ctx step steps items state (pos, whole, sizes, registered, sound) deep =
        let runner = runner_of fragments verifiers (run_step fragments verifiers fuel) ctx steps in
        let keeps : Keeps Never step runner = record {
          body = λ cfg xs st.
              scope-Partitions rank fuel (run_step fragments verifiers fuel (body_ctx cfg))
                (each (body_ctx cfg)) steps xs st sound (omega arith);
          fragment = λ name f led e model xs st.
              fragment-Gives ctx name (fragments name) f refl
                (omega (arith, deep, max_rank_le rank step.on_reject name led)) e model xs st;
          unregistered = λ name led e. registered name led (none_of (fragments name) e);
          no_items = λ batch st e. sizes batch st e;
        } in
        then_do-Gives Never _ _ (run_foreach step runner items state) _
          (run_foreach-Partitions Never step runner items items state keeps pos
            (ap (λ o. source_of o items state) whole))
          (λ (state', res) all. (
            _,
            refl,
            (
              (λ k. omega (
                arith,
                all k,
                times-append k (unchanged_by step.from items items) items,
                ap (λ o. times k (unchanged_by o items items)) whole,
              )),
              λ e k. absurd (ground arith),
            ),
          ))
      where
        body_ctx : WorkflowConfig → RunCtx
        body_ctx cfg = record {
          model = or_else cfg.model ctx.model;
          rejection_retries_override =
              either_option cfg.rejection_retries ctx.rejection_retries_override;
        }

        none_of :
            (o : Option (Steps W Turn))
            → elim o
                as (λ _.
                  Option
                    (Option String → List Item → RunState W → Running (RunState W × ScopeResult))) [
                      | none ↦ none
                      | some frag ↦ some (λ model xs st.
                          run_scope
                            (run_step fragments verifiers fuel (record {
                              model = or_else model ctx.model;
                              rejection_retries_override = none;
                            }))
                            frag
                            xs
                            st)
                    ]
              ≡ none
            → o ≡ none
        none_of none e = refl
        none_of (some frag) e = cc

  step-Keeps :
      (rank : String → ℕ)
      → AreSound fragments verifiers rank
      → (fuel : ℕ) (ctx : RunCtx) (step : Step W Turn) (items : List Item) (state : RunState W)
      → IsSound fragments verifiers step
      → depth rank step ≤ fuel
      → Gives Never (StepKeeps items) (run_step fragments verifiers fuel ctx step items state)
  unfolding run_step depth IsSound
  step-Keeps rank frags fuel ctx (agent model turn) [] state sound deep =
      (_, refl, ((λ k. refl), λ e k. refl))
  step-Keeps rank frags fuel ctx (agent model turn) (item ∷ items) state sound deep =
      (_, refl, ((λ k. omega arith), λ e k. absurd (ground arith)))
  step-Keeps rank frags fuel ctx (shell command) items state sound deep =
      (_, refl, ((λ k. omega arith), λ e k. absurd (ground arith)))
  step-Keeps rank frags fuel ctx (verify name) items state sound deep =
      verify-Keeps name fuel ctx items state sound.0 sound.1
  step-Keeps rank frags fuel ctx (transform fn) items state sound deep =
      (_, refl, ((λ k. omega (arith, sound items state k)), λ e k. absurd (ground arith)))
  step-Keeps rank frags fuel ctx (selects into select) items state sound deep =
      (_, refl, ((λ k. omega arith), λ e k. absurd (ground arith)))
  step-Keeps rank frags fuel ctx (gate when) items state sound deep =
      gate-Keeps when fuel ctx items state
  step-Keeps rank frags fuel ctx (agent_loops model retries hooks) items state sound deep =
      loop-Keeps model retries hooks fuel ctx items state sound
  step-Keeps rank frags zero ctx (foreach step steps) items state sound deep = absurd (omega arith)
  step-Keeps rank frags (suc fuel) ctx (foreach step steps) items state sound deep =
      foreach-Keeps rank frags fuel (λ c s xs st h d. step-Keeps rank frags fuel c s xs st h d) ctx
        step steps items state sound deep

  -- Where every step and every fragment is sound and no fragment reaches itself, a run of a pipeline on
  -- fuel for the depth of its steps ends without a failure, and the items that it accepts, rejects and
  -- skips are together those that its plan gave, each as often.
  pub run_pipeline-Partitions :
      (rank : String → ℕ) (fuel : ℕ) (default_model : String)
      (plan : RunState W → RunState W × List Item) (steps : Steps W Turn) (world : W)
      → AreSound fragments verifiers rank
      → IsSoundSteps fragments verifiers steps
      → depth_steps rank steps ≤ fuel
      → (state' : RunState W) × (res : ScopeResult) × (run_pipeline fragments verifiers fuel
            default_model plan steps world
          ≡ some (returns (state', res)))
        × ((k : String)
            → times k res.accepted + times k res.rejected + times k res.skipped
              ≡ times k (plan (start_state world)).1)
  unfolding run_pipeline
  run_pipeline-Partitions rank fuel default_model plan steps world frags sound deep =
      let ctx : RunCtx = record { model = default_model; rejection_retries_override = none } in
      let (state', initial) = plan (start_state world) in
      ends _ (
        scope-Partitions rank fuel (run_step fragments verifiers fuel ctx)
          (step-Keeps rank frags fuel ctx) steps initial state' sound deep)
    where
      ends :
          (o : Running (RunState W × ScopeResult))
          → Gives Never (Partitions (plan (start_state world)).1) o
          → (state' : RunState W) × (res : ScopeResult) × (o ≡ some (returns (state', res)))
            × ((k : String)
                → times k res.accepted + times k res.rejected + times k res.skipped
                  ≡ times k (plan (start_state world)).1)
      ends o (returns (state', res), there, all) = (state', res, there, all)
      ends o (throws e, there, bad) = absurd bad

-- ===== src/Workflow/Facade/Runs.antt =====
-- Runs of the workflows that src/workflow/facade.ts has added to an engine.
use mathlib.Core.Path.{subst}
use mathlib.Core.List.{append-nil}
use decompi.Base.{
  ◌⊎◌, ℕ, zero, suc, ◌+◌, ◌≤◌, ◌≡◌, ◌≢◌, refl, sym, ◌∙◌, ap, Bool, true, false, List, [], ◌∷◌,
  Option, none, some, String, ◌===◌, if◌then◌else◌, arith, All, Bool-cases, inl, inr,
}
use decompi.Pipeline.Engine.{Item, has_id, Route}
use decompi.Pipeline.Engine.AgentLoop.Play.{times}
use decompi.Pipeline.Engine.Foreach.{RunState, ScopeResult, WorkflowConfig, returns, set_up}
use decompi.Pipeline.Engine.Foreach.Routing.{targets}
use decompi.Pipeline.Engine.Scope.{Step, Steps, run_pipeline, start_state}
use decompi.Pipeline.Engine.Scope.Soundness.{depth, depth_steps, IsSoundSteps}
use decompi.Pipeline.Engine.Scope.Whole.{run_pipeline-Partitions}
use decompi.Pipeline.Engine.Registry.{
  Engine, Pipeline, registered, register_pipeline, put_edges, edges, fresh, step_targets,
  collect_route_targets,
}
use decompi.Pipeline.Engine.Registry.Ranks.{IsRanked, edges-put}
use decompi.Pipeline.Engine.Registry.Ending.{reject_cycle-IsRanked}
use decompi.Workflow.Ladder.{fragment_id, reserved_tool}
use decompi.Workflow.Compile.{
  Runtime, WorkflowDef, RouteDef, compile_workflow, compiled, compiled_routes, compiled_fragments,
  foreach_of, agent_loop_step, batch_of, lifted, plan, ladder,
}
use decompi.Workflow.Facade.{add_workflow, added}
use decompi.Workflow.Facade.Adding.{fragment_id-ne, IsReady, add_fragments-Adds}

-- The names of the routes are those of the fragments.
All-targets :
    {W Turn : Type 0} (P : String → Type 0) (w : String) (i batch : ℕ)
    (setup : Option (List Item → W → W × WorkflowConfig)) (loop : Step W Turn) (rs : List RouteDef)
    → All (λ f. P f.0) (compiled_fragments w i batch setup loop rs)
    → (t : String) → has_id t (targets (compiled_routes w i rs)) ≡ true
    → P t
unfolding compiled_fragments compiled_routes has_id
All-targets P w i batch setup loop [] all t h = absurd (ground (arith, h))
All-targets P w i batch setup loop (r ∷ rs) all t h = elim (Bool-cases (fragment_id w i === t)) [
  | inl e ↦ subst P (ground (arith, e)) all.0
  | inr e ↦ All-targets P w (suc i) batch setup loop rs all.1 t (ground (arith, h, e))
]

module _ {W Turn MetaOp : Type 0} (runtime : Runtime W Turn MetaOp)
    (def : WorkflowDef W Turn MetaOp) where
  -- A fragment of the workflow.
  abbrev IsLeaf : Steps W Turn → Type 0
  IsLeaf steps =
      (batch : ℕ) × (1 ≤ batch)
      × (steps ≡ foreach_of batch [] def.setup (agent_loop_step runtime def))

  IsLeaf-no_routes : (steps : Steps W Turn) → IsLeaf steps → collect_route_targets steps ≡ []
  unfolding foreach_of agent_loop_step collect_route_targets step_targets
  IsLeaf-no_routes steps (batch, some_items, e) = rw e refl

  -- The pipeline is above its fragments.
  abbrev rank : String → ℕ
  rank name = if def.id === name then 1 else 0

  compiled_fragments-IsLeaf :
      (i batch : ℕ) (rs : List RouteDef)
      → 1 ≤ batch
      → All
          (λ f. (f.0 ≢ "") × IsLeaf f.1)
          (compiled_fragments def.id i batch def.setup (agent_loop_step runtime def) rs)
  unfolding compiled_fragments
  compiled_fragments-IsLeaf i batch [] h = tt
  compiled_fragments-IsLeaf i batch (r ∷ rs) h = (
    ((fragment_id-ne def.id i).1, (_, ground (arith, h), refl)),
    compiled_fragments-IsLeaf (suc i) batch rs h,
  )

  compiled_fragments-ne :
      (i batch : ℕ) (rs : List RouteDef)
      → All
          (λ f. f.0 ≢ def.id)
          (compiled_fragments def.id i batch def.setup (agent_loop_step runtime def) rs)
  unfolding compiled_fragments
  compiled_fragments-ne i batch [] = tt
  compiled_fragments-ne i batch (r ∷ rs) =
      ((fragment_id-ne def.id i).0, compiled_fragments-ne (suc i) batch rs)

  abbrev batch : ℕ
  batch = batch_of def.can_batch def.default_batch_size

  abbrev loop : Step W Turn
  loop = agent_loop_step runtime def

  abbrev routes : List Route
  routes = compiled_routes def.id 0 def.routes

  abbrev fragments : List (String × Steps W Turn)
  fragments = compiled_fragments def.id 0 batch def.setup loop def.routes

  abbrev steps : Steps W Turn
  steps = foreach_of batch routes def.setup loop

  steps-targets : collect_route_targets steps ≡ targets routes
  unfolding foreach_of agent_loop_step collect_route_targets step_targets
  steps-targets = simp (append-nil)

  own_routes-IsRanked : IsRanked (put_edges def.id (collect_route_targets steps) []) rank
  unfolding edges has_id
  own_routes-IsRanked n t h = elim (Bool-cases (def.id === n)) [
    | inl own ↦
        let on =
          rw (edges-put def.id (collect_route_targets steps) [] n, own, steps-targets) at h in
        let apart =
          All-targets (λ name. name ≢ def.id) def.id 0 batch def.setup loop def.routes
            (compiled_fragments-ne 0 batch def.routes) t on in
        ground (arith, own, apart)
    | inr other ↦ absurd (cc (rw (edges-put def.id (collect_route_targets steps) [] n, other) at h))
  ]

  -- No batch is set to no items.
  abbrev pub SetsBatches : Option (List Item → W → W × WorkflowConfig) → Type 0
  SetsBatches none = Unit
  SetsBatches (some setup) =
      (items : List Item) (world : W) → (setup items world).1.batch_size ≢ some 0

  -- A verdict accepts, of each id, the items in play or none.
  abbrev pub IsFair : Type 0
  IsFair =
      (items : List Item) (turn : Turn) (world : W) (k : String)
      → (times k (def.reprompt items turn world).1.accepted ≡ times k items)
        ⊎ (times k (def.reprompt items turn world).1.accepted ≡ 0)

  lifted-batches :
      (setup : Option (List Item → W → W × WorkflowConfig))
      → SetsBatches setup
      → (items : List Item) (state : RunState W)
      → (set_up (lifted setup) items state).1.batch_size ≢ some 0
  unfolding lifted
  lifted-batches none h items state e = cc
  lifted-batches (some setup) h items state e = h items state.world e

  batch-pos :
      (can_batch : Option Bool) (size : Option ℕ) → size ≢ some 0 → 1 ≤ batch_of can_batch size
  batch-pos (some false) size h = omega arith
  batch-pos (some true) none h = omega arith
  batch-pos (some true) (some zero) h = absurd (h refl)
  batch-pos (some true) (some (suc n)) h = omega arith
  batch-pos none none h = omega arith
  batch-pos none (some zero) h = absurd (h refl)
  batch-pos none (some (suc n)) h = omega arith

  foreach_of-IsSound :
      (frags : String → Option (Steps W Turn)) (verifiers : String → Option (Item → W → W × Bool))
      (size : ℕ) (on_reject : List Route)
      → 1 ≤ size
      → SetsBatches def.setup
      → IsFair
      → ((name : String) → has_id name (targets on_reject) ≡ true → frags name ≢ none)
      → IsSoundSteps frags verifiers (foreach_of size on_reject def.setup loop)
  unfolding foreach_of agent_loop_step IsSoundSteps
  foreach_of-IsSound frags verifiers size on_reject pos sets fair there =
      ((pos, refl, lifted-batches def.setup sets, there, ((λ name. fair), tt)), tt)

  leaf_sound :
      (e : Engine W Turn) (verifiers : String → Option (Item → W → W × Bool))
      → SetsBatches def.setup
      → IsFair
      → (frag : Steps W Turn) → IsLeaf frag
      → IsSoundSteps e.fragments verifiers frag × (depth_steps (λ name. 1) frag ≤ 1)
  unfolding foreach_of agent_loop_step depth_steps depth has_id
  leaf_sound e verifiers sets fair frag (size, pos, is) = (
    subst (IsSoundSteps e.fragments verifiers) (sym is)
        (foreach_of-IsSound e.fragments verifiers size [] pos sets fair (λ name h. cc)),
    rw is (omega arith),
  )

  abbrev whole_pipeline : Pipeline W Turn
  whole_pipeline = record {
    id = def.id;
    plan = plan runtime def;
    steps = steps;
    triggers = [];
    statuses = some (ladder runtime def).statuses;
    done_statuses = some (ladder runtime def).done_statuses;
    completion_status = some (ladder runtime def).completion_status;
  }

  compile_workflow-eq :
      reserved_tool def.custom_tools ≡ none
      → compile_workflow runtime def
        ≡ compiled (record { pipeline = whole_pipeline; fragments = fragments })
  unfolding compile_workflow
  compile_workflow-eq free = rw (compile_workflow, free)

  -- The engine with the pipeline of the workflow.
  abbrev with_pipeline : Engine W Turn
  with_pipeline = record fresh {
    pipelines = λ n. if def.id === n then some whole_pipeline else none;
    route_targets = put_edges def.id (collect_route_targets steps) [];
  }

  register_pipeline-eq :
      def.id ≢ "" → register_pipeline whole_pipeline fresh ≡ (with_pipeline, registered)
  unfolding register_pipeline
  register_pipeline-eq named =
      let accepted =
        reject_cycle-IsRanked (put_edges def.id (collect_route_targets steps) []) rank def.id
          own_routes-IsRanked in
      ground (arith, accepted, named)

  -- The pipeline and all fragments of the workflow are registered.
  record IsAdded (e : Engine W Turn) : Type 0 where
    is_added : add_workflow runtime def fresh ≡ (e, added)
    pipelines : e.pipelines def.id ≡ some whole_pipeline
    leaves : (name : String) (frag : Steps W Turn) → e.fragments name ≡ some frag → IsLeaf frag
    names : All (λ f. e.fragments f.0 ≢ none) fragments

  add_workflow-IsAdded :
      def.id ≢ ""
      → reserved_tool def.custom_tools ≡ none
      → def.default_batch_size ≢ some 0
      → (e : Engine W Turn) × IsAdded e
  unfolding add_workflow
  add_workflow-IsAdded named free size =
      let ready : IsReady rank IsLeaf IsLeaf-no_routes with_pipeline = record {
        ranked = own_routes-IsRanked;
        leaves = λ name frag h. cc;
      } in
      let (e, filled, adds) =
        add_fragments-Adds rank IsLeaf IsLeaf-no_routes fragments with_pipeline ready (
          compiled_fragments-IsLeaf 0 batch def.routes
            (batch-pos def.can_batch def.default_batch_size size)) in
      (
        e,
        record {
          is_added = rw (add_workflow, compile_workflow-eq free, register_pipeline-eq named) filled;
          pipelines = ap (λ f. f def.id) adds.pipelines ∙ ground arith;
          leaves = adds.ready.leaves;
          names = adds.names;
        },
      )

  -- A workflow with a name, with no tool named like a core tool, whose batches are not set to no items
  -- and whose verdicts accept of each id the items in play or none, is added to a fresh engine with no
  -- registration refused; and with enough fuel every run of its pipeline ends, and accepts, rejects and
  -- skips each item as often as its plan gives it.
  pub add_workflow-Partitions :
      def.id ≢ ""
      → reserved_tool def.custom_tools ≡ none
      → def.default_batch_size ≢ some 0
      → SetsBatches def.setup
      → IsFair
      → (e : Engine W Turn) × (p : Pipeline W Turn) × (fuel : ℕ) × (add_workflow runtime def fresh
          ≡ (e, added))
        × (e.pipelines def.id ≡ some p)
        × ((verifiers : String → Option (Item → W → W × Bool)) (default_model : String) (world : W)
            → (state' : RunState W) × (res : ScopeResult) × (run_pipeline e.fragments verifiers fuel
                  default_model p.plan p.steps world
                ≡ some (returns (state', res)))
              × ((k : String)
                  → times k res.accepted + times k res.rejected + times k res.skipped
                    ≡ times k (plan runtime def (start_state world)).1))
  add_workflow-Partitions named free size sets fair =
      let (e, is) = add_workflow-IsAdded named free size in
      let one : String → ℕ = λ name. 1 in
      (
        e,
        whole_pipeline,
        depth_steps one steps,
        is.is_added,
        is.pipelines,
        λ verifiers default_model world.
            run_pipeline-Partitions e.fragments verifiers one (depth_steps one steps) default_model
              (plan runtime def) steps world
              (λ name frag h. leaf_sound e verifiers sets fair frag (is.leaves name frag h))
              (foreach_of-IsSound e.fragments verifiers batch routes
                (batch-pos def.can_batch def.default_batch_size size) sets fair
                (All-targets (λ name. e.fragments name ≢ none) def.id 0 batch def.setup loop
                  def.routes is.names))
              (omega arith),
      )

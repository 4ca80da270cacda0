-- ===== src/Workflow/Compile.antt =====
-- src/workflow/compile.ts: a workflow compiled to a pipeline whose plan selects the work items of its
-- kind, and to a fragment for each of its routes. The hooks act on a world, their context with it; the
-- session's turns, the completion writer, the selection and the status table are what the run supplies.
pub mod Planning
pub mod Completions
use decompi.Base.{
  ℕ, suc, Bool, true, false, ◌&&◌, List, [], ◌∷◌, Option, none, some, String, or_else,
  if◌then◌else◌,
}
use decompi.Pipeline.Engine.{Item, When, Route, has_id}
use decompi.Pipeline.Engine.AgentLoop.{Verdict, CompletionAction}
use decompi.Pipeline.Engine.Foreach.{RunState, WorkflowConfig}
use decompi.Pipeline.Engine.Scope.{Step, Steps, agent_loops, foreach, finish, then_step}
use decompi.Pipeline.Engine.Registry.{Pipeline}
use decompi.Target.Selector.{Filter, Selector, SortColumn, SortDir}
use decompi.Workflow.Scope.{RunScope, empty_filter}
use decompi.Workflow.Ladder.{Ladder, resolve_ladder, reserved_tool, fragment_id}
use decompi.Workflow.Status.{StatusRow, is_done}

-- An entry of `routes`.
pub record RouteDef : Type 0 where
  pub guard : Option When
  pub model : String
  pub max_attempts : Option ℕ

-- `select` of a workflow.
pub record SelectDef (MetaOp : Type 0) : Type 0 where
  pub filter : Option (Filter MetaOp)
  pub sort : List (SortColumn × SortDir)
  pub limit : Option ℕ

pub record WorkflowDef (W Turn MetaOp : Type 0) : Type 0 where
  pub id : String
  pub accepts : String
  pub can_batch : Option Bool
  pub default_batch_size : Option ℕ
  pub selection : Option (SelectDef MetaOp)
  -- the names of the workflow's own tools
  pub custom_tools : List String
  pub setup : Option (List Item → W → W × WorkflowConfig)
  pub rejection_retries : Option ℕ
  pub routes : List RouteDef
  pub start_prompt : List Item → W → W × String
  pub reprompt : List Item → Turn → W → W × Verdict
  pub complete : Option (Item → Turn → W → W × CompletionAction)
  pub statuses : Option (List String)
  pub done_statuses : Option (List String)
  pub completion_status : Option String

abbrev pub default_batch_size : ℕ
default_batch_size = 5

abbrev in_list : Option (List String) → Option String → Bool
in_list none value = true
in_list (some ids) none = false
in_list (some ids) (some value) = has_id value ids

unfoldable pub in_scope : RunScope → Item → Bool
unfolding has_id
in_scope scope item = in_list scope.target_ids (some item.id) && in_list scope.unit_ids item.unit_id

unfoldable pub apply_scope_selector : List Item → Option RunScope → List Item
unfolding in_scope
apply_scope_selector items none = items
apply_scope_selector [] (some scope) = []
apply_scope_selector (item ∷ items) (some scope) =
    let rest = apply_scope_selector items (some scope) in
    if in_scope scope item then item ∷ rest else rest

-- The items that are not done yet.
unfoldable pub subtract_done : String → List String → List StatusRow → List Item → List Item
subtract_done workflow done_statuses rows [] = []
subtract_done workflow done_statuses rows (item ∷ items) =
    let rest = subtract_done workflow done_statuses rows items in
    if is_done workflow (record { id = item.id; unit_id = item.unit_id }) done_statuses rows
    then rest
    else item ∷ rest

-- The rows that `isDone` reads, where the run has a table of statuses.
abbrev pub rows_of : {W : Type 0} → Option (W → List StatusRow) → W → Option (List StatusRow)
rows_of none world = none
rows_of (some rows) world = some (rows world)

unfoldable pub open_items : String → List String → Option (List StatusRow) → List Item → List Item
unfolding subtract_done
open_items workflow done_statuses none items = items
open_items workflow done_statuses (some rows) items =
    subtract_done workflow done_statuses rows items

-- What the run supplies: a turn of a session on a model, the completion writer, the selection, the
-- table of statuses where there is one, and the scope of the plan's context, which is optional: the
-- engine does not hand one on as yet, so that only a caller of the plan itself gives one.
pub record Runtime (W Turn MetaOp : Type 0) : Type 0 where
  pub prompt : String → String → W → W × (List String × Turn)
  pub finalize : Item → CompletionAction → W → W
  pub select : Selector MetaOp → W → W × List Item
  pub statuses : Option (W → List StatusRow)
  pub scope : Option RunScope

module _ {MetaOp : Type 0} where
  -- `{ kind: [accepts], ...select.filter }`, where an absent `kind` is not spread.
  unfoldable pub plan_selector : String → Option (SelectDef MetaOp) → Selector MetaOp
  plan_selector accepts none = record {
    filter = some (record empty_filter { kind = some (accepts ∷ []) });
    sort = [];
    limit = none;
  }
  plan_selector accepts (some s) =
      let f = or_else s.filter empty_filter in
      record {
        filter = some (record f { kind = some (or_else f.kind (accepts ∷ [])) });
        sort = s.sort;
        limit = s.limit;
      }

unfoldable pub compiled_routes : String → ℕ → List RouteDef → List Route
unfolding fragment_id
compiled_routes workflow i [] = []
compiled_routes workflow i (r ∷ rs) =
    record {
      to = fragment_id workflow i;
      guard = r.guard;
      model = some r.model;
      max_attempts = r.max_attempts;
    }
    ∷ compiled_routes workflow (suc i) rs

abbrev rebatches : Option When → Bool
rebatches none = false
rebatches (some when) = elim when.size_below [ none ↦ false | some _ ↦ true ]

module _ {W : Type 0} where
  unfoldable pub lifted :
      Option (List Item → W → W × WorkflowConfig)
      → Option (List Item → RunState W → RunState W × WorkflowConfig)
  lifted none = none
  lifted (some setup) = some (λ items state.
      let (world, cfg) = setup items state.world in (record state { world = world }, cfg))

module _ {W Turn : Type 0} where
  unfoldable pub foreach_of :
      ℕ → List Route → Option (List Item → W → W × WorkflowConfig) → Step W Turn → Steps W Turn
  unfolding lifted
  foreach_of batch routes setup loop =
      then_step
        (foreach
          (record {
            from = none;
            batch = batch;
            key = none;
            on_reject = routes;
            setup = lifted setup;
          })
          (then_step loop finish))
        finish

  -- A fragment for each route: at the batch size of the workflow, or one item at a time.
  unfoldable pub compiled_fragments :
      String
      → ℕ
      → ℕ
      → Option (List Item → W → W × WorkflowConfig)
      → Step W Turn
      → List RouteDef
      → List (String × Steps W Turn)
  unfolding fragment_id foreach_of
  compiled_fragments workflow i batch setup loop [] = []
  compiled_fragments workflow i batch setup loop (r ∷ rs) =
      (fragment_id workflow i, foreach_of (if rebatches r.guard then batch else 1) [] setup loop)
      ∷ compiled_fragments workflow (suc i) batch setup loop rs

pub record CompiledWorkflow (W Turn : Type 0) : Type 0 where
  pub pipeline : Pipeline W Turn
  pub fragments : List (String × Steps W Turn)

pub data Compilation (W Turn : Type 0) : Type 0 where
  compiled : CompiledWorkflow W Turn → Compilation W Turn
  -- a tool of the workflow has the name of a core tool
  shadows_tool : String → Compilation W Turn

abbrev pub batch_of : Option Bool → Option ℕ → ℕ
batch_of (some false) size = 1
batch_of _ size = or_else size default_batch_size

module _ {W Turn MetaOp : Type 0} (runtime : Runtime W Turn MetaOp)
    (def : WorkflowDef W Turn MetaOp) where
  abbrev pub ladder : Ladder
  ladder = resolve_ladder def.statuses def.done_statuses def.completion_status

  -- `agentLoopStep`, with what the engine calls in the turns of its session.
  unfoldable pub agent_loop_step : Step W Turn
  unfolding resolve_ladder
  agent_loop_step = agent_loops none def.rejection_retries (λ model. record {
    start = def.start_prompt;
    prompt = runtime.prompt model;
    reprompt = def.reprompt;
    complete = def.complete;
    finalize = runtime.finalize;
    completion_status = some ladder.completion_status;
  })

  unfoldable pub plan : RunState W → RunState W × List Item
  unfolding plan_selector apply_scope_selector open_items resolve_ladder
  plan state =
      let (world, items) = runtime.select (plan_selector def.accepts def.selection) state.world in
      let scoped = apply_scope_selector items runtime.scope in
      (
        record state { world = world },
        open_items def.id ladder.done_statuses (rows_of runtime.statuses world) scoped,
      )

  unfoldable pub compile_workflow : Compilation W Turn
  unfolding reserved_tool agent_loop_step plan compiled_routes compiled_fragments foreach_of
      resolve_ladder
  compile_workflow =
      let batch = batch_of def.can_batch def.default_batch_size in
      let whole : CompiledWorkflow W Turn = record {
        pipeline = record {
          id = def.id;
          plan = plan;
          steps = foreach_of batch (compiled_routes def.id 0 def.routes) def.setup agent_loop_step;
          triggers = [];
          statuses = some ladder.statuses;
          done_statuses = some ladder.done_statuses;
          completion_status = some ladder.completion_status;
        };
        fragments = compiled_fragments def.id 0 batch def.setup agent_loop_step def.routes;
      } in
      elim (reserved_tool def.custom_tools) [
        | some name ↦ shadows_tool name
        | none ↦ compiled whole
      ]

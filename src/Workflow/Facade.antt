-- ===== src/Workflow/Facade.antt =====
-- `addWorkflow` of src/workflow/facade.ts: a workflow compiled and registered on an engine. The check
-- of the names of helpers only logs.
pub mod Adding
pub mod Runs
use decompi.Base.{List, [], ◌∷◌, String}
use decompi.Pipeline.Engine.Scope.{Steps}
use decompi.Pipeline.Engine.Registry.{
  Engine, Registration, registered, route_cycle, empty_id, unfinished, register_pipeline,
  register_fragment,
}
use decompi.Workflow.Compile.{Runtime, WorkflowDef, compiled, shadows_tool, compile_workflow}

pub data Addition : Type 0 where
  added : Addition
  -- a registration or the compiler throws, and what was registered before stays
  refused : Registration → Addition
  shadowed : String → Addition

module _ {W Turn : Type 0} where
  abbrev pub if_added :
      Engine W Turn × Registration → Engine W Turn × Addition → Engine W Turn × Addition
  if_added (e, registered) rest = rest
  if_added (e, route_cycle c) rest = (e, refused (route_cycle c))
  if_added (e, empty_id) rest = (e, refused empty_id)
  if_added (e, unfinished) rest = (e, refused unfinished)

  unfoldable pub add_fragments :
      List (String × Steps W Turn) → Engine W Turn → Engine W Turn × Addition
  add_fragments [] e = (e, added)
  add_fragments ((id, steps) ∷ fragments) e =
      let one = register_fragment id steps e in
      let rest = add_fragments fragments one.0 in if_added one rest

unfoldable pub add_workflow :
    {W Turn MetaOp : Type 0}
    → Runtime W Turn MetaOp
    → WorkflowDef W Turn MetaOp
    → Engine W Turn
    → Engine W Turn × Addition
unfolding add_fragments
add_workflow runtime def e = elim (compile_workflow runtime def) [
  | shadows_tool name ↦ (e, shadowed name)
  | compiled whole ↦
      let one = register_pipeline whole.pipeline e in
      let rest = add_fragments whole.fragments one.0 in if_added one rest
]

-- ===== src/Workflow/Compile/Planning.antt =====
-- What the plan of a workflow of src/workflow/compile.ts offers, and what a completed item leaves behind.
use decompi.Base.{
  ◌∙◌, ap, ℕ, ◌≡◌, refl, Bool, true, false, not, ◌&&◌, List, [], ◌∷◌, ◌++◌, Option, none, some,
  String, ◌===◌, or_else, any, arith,
}
use decompi.Pipeline.Engine.{Item}
use decompi.Pipeline.Engine.AgentLoop.{CompletionAction}
use decompi.Pipeline.Engine.Foreach.{RunState}
use decompi.Workflow.Status.{StatusRow, StatusTarget, is_done, resolve_status}
use decompi.Workflow.Compile.{
  Runtime, WorkflowDef, ladder, apply_scope_selector, subtract_done, rows_of, open_items, plan,
  plan_selector,
}
use decompi.Workflow.Compile.Completions.{
  complete_all-done, target_of, Completion, complete_all, WritesDone,
}

abbrev pub done_in : Option (List StatusRow) → String → List String → Item → Bool
done_in none workflow done_statuses item = false
done_in (some rows) workflow done_statuses item =
    is_done workflow (target_of item) done_statuses rows

subtract_done-any :
    (q : Item → Bool) (workflow : String) (done : List String) (rows : List StatusRow)
    (items : List Item)
    → any q (subtract_done workflow done rows items)
      ≡ any (λ i. not (is_done workflow (target_of i) done rows) && q i) items
unfolding subtract_done
subtract_done-any q workflow done rows [] = refl
subtract_done-any q workflow done rows (i ∷ items) =
    ground (arith, subtract_done-any q workflow done rows items)

open_items-any :
    (q : Item → Bool) (workflow : String) (done : List String) (rows : Option (List StatusRow))
    (items : List Item)
    → any q (open_items workflow done rows items)
      ≡ any (λ i. not (done_in rows workflow done i) && q i) items
unfolding open_items
open_items-any q workflow done none items = refl
open_items-any q workflow done (some rows) items = subtract_done-any q workflow done rows items

-- The same work item: of one id, in one unit.
abbrev pub same_target : Item → Item → Bool
same_target item i = (i.id === item.id) && (or_else i.unit_id "" === or_else item.unit_id "")

is_done-unit :
    (workflow : String) (done : List String) (rows : List StatusRow) (target : StatusTarget)
    → is_done workflow target done rows
      ≡ is_done workflow
          (record { id = target.id; unit_id = some (or_else target.unit_id "") })
          done
          rows
unfolding is_done resolve_status
is_done-unit workflow done rows target = refl

is_done-same :
    (workflow : String) (done : List String) (rows : List StatusRow) (item i : Item)
    → same_target item i ≡ true
    → is_done workflow (target_of i) done rows ≡ is_done workflow (target_of item) done rows
is_done-same workflow done rows item i h =
    let same_id : i.id ≡ item.id = ground (arith, h) in
    let same_unit : or_else i.unit_id "" ≡ or_else item.unit_id "" = ground (arith, h) in
    cc (
      is_done-unit workflow done rows (target_of i),
      is_done-unit workflow done rows (target_of item),
      same_id,
      same_unit,
    )

none_open :
    (workflow : String) (done : List String) (rows : List StatusRow) (item : Item)
    (items : List Item)
    → is_done workflow (target_of item) done rows ≡ true
    → any (λ i. not (is_done workflow (target_of i) done rows) && same_target item i) items ≡ false
none_open workflow done rows item [] h = refl
none_open workflow done rows item (i ∷ items) h =
    ground
      (arith, is_done-same workflow done rows item i, none_open workflow done rows item items h)

module _ {W Turn MetaOp : Type 0} (runtime : Runtime W Turn MetaOp)
    (def : WorkflowDef W Turn MetaOp) where
  -- The world after the selection of a plan, and what it selects.
  abbrev pub selected : RunState W → W × List Item
  selected state = runtime.select (plan_selector def.accepts def.selection) state.world

  -- Where the run's table of statuses holds the completions of a run, each of which promotes with a done
  -- status or does not promote, and so writes nothing, no item that was promoted is planned again.
  pub promoted-not_planned :
      (rows : W → List StatusRow) (before after : List Completion) (ts : ℕ) (item : Item)
      (action : CompletionAction) (old : List StatusRow) (state : RunState W)
      → runtime.statuses ≡ some rows
      → rows (selected state).0
        ≡ complete_all def.id
            (some (ladder runtime def).completion_status)
            (before ++ (ts, (item, action)) ∷ after)
            old
      → WritesDone
          (ladder runtime def).done_statuses
          (some (ladder runtime def).completion_status)
          (before ++ (ts, (item, action)) ∷ after)
      → action.promote ≡ some true
      → any (same_target item) (plan runtime def state).1 ≡ false
  unfolding plan
  promoted-not_planned rows before after ts item action old state there holds writes promotes =
      let (world, items) = selected state in
      let done = (ladder runtime def).done_statuses in
      let is_done_now =
        complete_all-done def.id (some (ladder runtime def).completion_status) done before after ts
          item action old writes promotes in
      let scoped = apply_scope_selector items runtime.scope in
      ap (λ o. any (same_target item) (open_items def.id done (rows_of o world) scoped)) there
      ∙ open_items-any (same_target item) def.id done (some (rows world)) scoped
      ∙ none_open def.id done (rows world) item scoped (rw holds is_done_now)

-- ===== src/Tests/Compiling.antt =====
-- A small workflow of src/workflow/compile.ts, compiled, added to an engine and planned twice.
use decompi.Base.{
  inl, ℕ, ◌+◌, ◌≡◌, refl, Bool, true, false, List, [], ◌∷◌, Option, none, some, String, str_dec,
  pair_dec, any,
}
use decompi.Core.Store.{query, find, insert_ignore, update_where}
use decompi.Pipeline.Engine.{Item}
use decompi.Pipeline.Engine.AgentLoop.{CompletionAction}
use decompi.Pipeline.Engine.AgentLoop.Play.{times}
use decompi.Pipeline.Engine.Foreach.{RunState, ScopeResult, returns}
use decompi.Pipeline.Engine.Scope.{run_pipeline, start_state}
use decompi.Pipeline.Engine.Completion.{store_finalize}
use decompi.Pipeline.Engine.Registry.{Engine, Pipeline, fresh}
use decompi.Workflow.Ladder.{
  resolve_ladder, last_of, fragment_id, decimal, reserved_tool, is_reserved_tool_name,
}
use decompi.Workflow.Status.{StatusRow, is_done, resolve_status, probe, at_key, key_dec, set_status}
use decompi.Workflow.Compile.{
  WorkflowDef, Runtime, ladder, plan, plan_selector, apply_scope_selector, in_scope, open_items,
  subtract_done,
}
use decompi.Workflow.Compile.Planning.{same_target, promoted-not_planned}
use decompi.Workflow.Compile.Completions.{Completion, complete_all, WritesDone}
use decompi.Workflow.Facade.{add_workflow, added}
use decompi.Workflow.Facade.Runs.{IsFair, add_workflow-Partitions}
use decompi.Tests.Engines.{item, items}

abbrev Table : Type 0
Table = List StatusRow

-- A workflow that accepts all at its second turn, with a route for small items and one for any.
abbrev matching : WorkflowDef Table ℕ ℕ
matching = record {
  id = "match";
  accepts = "function";
  can_batch = none;
  default_batch_size = some 2;
  selection = none;
  custom_tools = "disassemble" ∷ [];
  setup =
      some (λ xs w. (w, record { batch_size = none; model = some "m"; rejection_retries = none }));
  rejection_retries = some 2;
  routes =
      record {
        guard = some (record { size_below = some 10; status = none; attempts = none });
        model = "small";
        max_attempts = some 1;
      }
      ∷ record { guard = none; model = "large"; max_attempts = none }
      ∷ [];
  start_prompt = λ xs w. (w, "start");
  reprompt = λ xs turn w. (w, record { accepted = xs; feedback = none; final = false });
  complete = none;
  statuses = some ("STARTED" ∷ "MATCHED" ∷ []);
  done_statuses = none;
  completion_status = none;
}

abbrev runtime : Runtime Table ℕ ℕ
runtime = record {
  prompt = λ model text w. (w, ([], 0));
  finalize = λ x action w. store_finalize 9 "match" (some "MATCHED") x action w;
  select = λ s w. (w, items);
  statuses = some (λ w. w);
  scope = some (record { target_ids = none; unit_ids = some ("u" ∷ []) });
}

abbrev promote : CompletionAction
promote = record { promote = some true; status = none }

-- A later completion that promotes, and one that does not and so writes nothing.
abbrev later_completions : List Completion
later_completions =
    (6, (item "h" 7, promote))
    ∷ (7, (item "g" 50, record { promote = some false; status = some "STARTED" }))
    ∷ []

abbrev completions : List Completion
completions = (5, (item "f" 5, promote)) ∷ later_completions

abbrev table : Table
table = complete_all "match" (some "MATCHED") completions []

fair : IsFair runtime matching
fair xs turn w k = inl refl

free_tools : reserved_tool matching.custom_tools ≡ none
unfolding reserved_tool is_reserved_tool_name str_dec
free_tools = refl

test_fragment : fragment_id "match" 12 ≡ "match#fragment12"
unfolding fragment_id decimal
test_fragment = refl

add_workflow-Partitions_example :
    (e : Engine Table ℕ) × (p : Pipeline Table ℕ) × (fuel : ℕ) × (add_workflow runtime matching
        fresh
      ≡ (e, added))
    × (e.pipelines "match" ≡ some p)
    × ((verifiers : String → Option (Item → Table → Table × Bool)) (default_model : String)
          (world : Table)
        → (state : RunState Table) × (res : ScopeResult) × (run_pipeline e.fragments verifiers fuel
              default_model p.plan p.steps world
            ≡ some (returns (state, res)))
          × ((k : String)
              → times k res.accepted + times k res.rejected + times k res.skipped
                ≡ times k (plan runtime matching (start_state world)).1))
add_workflow-Partitions_example =
    add_workflow-Partitions runtime matching (λ e. cc) free_tools (λ e. cc) (λ xs w e. cc) fair

-- What is left to plan after the completions.
plan_ids : List Item → List String
plan_ids [] = []
plan_ids (i ∷ is) = i.id ∷ plan_ids is

test_plan : plan_ids (plan runtime matching (start_state table)).1 ≡ "g" ∷ []
unfolding plan_ids plan plan_selector apply_scope_selector in_scope open_items subtract_done is_done
    resolve_status probe query find insert_ignore update_where at_key key_dec set_status
    resolve_ladder last_of complete_all store_finalize pair_dec str_dec
test_plan = refl

writes :
    WritesDone
      (ladder runtime matching).done_statuses
      (some (ladder runtime matching).completion_status)
      completions
unfolding resolve_ladder last_of str_dec
writes = ((λ h. refl), ((λ h. refl), ((λ h. cc), tt)))

kept :
    table ≡ complete_all "match" (some (ladder runtime matching).completion_status) completions []
unfolding resolve_ladder last_of
kept = refl

promoted-not_planned_example :
    any (same_target (item "f" 5)) (plan runtime matching (start_state table)).1 ≡ false
promoted-not_planned_example =
    promoted-not_planned runtime matching (λ w. w) [] later_completions 5 (item "f" 5) promote []
      (start_state table) refl kept writes refl

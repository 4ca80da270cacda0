-- ===== src/Pipeline/Engine/Completion.antt =====
-- `storeFinalize` of src/pipeline/engine.ts: the completion writer of a run on a status table.
use decompi.Base.{ℕ, false, List, Option, none, some, String, ◌===◌, or_else, if◌then◌else◌}
use decompi.Pipeline.Engine.{Item}
use decompi.Pipeline.Engine.AgentLoop.{CompletionAction}
use decompi.Workflow.Status.{StatusRow, set_status}

-- An action's own status, unless it is absent or empty.
abbrev pub status_or : Option String → String → String
status_or none other = other
status_or (some status) other = if status === "" then other else status

-- An action that does not promote writes nothing.
unfoldable pub store_finalize :
    ℕ → String → Option String → Item → CompletionAction → List StatusRow → List StatusRow
store_finalize ts pipeline_id completion_status item action rows =
    let after =
      set_status ts
        (record {
          workflow_id = pipeline_id;
          unit_id = some (or_else item.unit_id "");
          target_id = some item.id;
          status = status_or action.status (or_else completion_status "DONE");
          actor = "run";
          reason = some "run-time";
        })
        rows in
    if or_else action.promote false then after else rows

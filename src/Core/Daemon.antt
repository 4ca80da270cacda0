-- ===== src/Core/Daemon.antt =====
-- src/core/daemon.ts, `finalizeWorkflowItem`: the one transaction that records the outcome of a
-- workflow for a target. `Evidence` is a type of the workflow's author. `stringify` stands for
-- `JSON.stringify` of the event's payload, with `none` where it throws; the transaction then rolls
-- back. That, and the rejection of a call of a closed daemon, is the result `none` here.
pub mod Finalize
pub mod Leases
use decompi.Base.{
  ℕ, ◌+◌, Bool, true, false, List, [], ◌∷◌, ◌++◌, Option, none, some, String, or_else, ◌===◌, ite,
  if◌then◌else◌,
}
use decompi.Core.Store.{update_where}
use decompi.Core.Events.{EventRow, EventLog}
use decompi.Workflow.Status.{StatusRow, StatusTarget, SetStatusParams, resolve_status, set_status}

-- The columns of `work_items` that the transaction writes or reads.
pub record ItemRow : Type 0 where
  pub id : String
  pub lifecycle : String
  pub status : String
  pub updated_at : ℕ

pub record Store : Type 0 where
  pub statuses : List StatusRow
  pub items : List ItemRow
  pub log : EventLog

-- `{ promote, status?, evidence? }`; a missing field is `none`.
pub record CompletionAction (Evidence : Type 0) : Type 0 where
  pub promote : Option Bool
  pub status : Option String
  pub evidence : Option Evidence

pub record FinalizeWorkflowItemInput (Evidence : Type 0) : Type 0 where
  pub workflow_id : String
  pub target : StatusTarget
  pub actor : String
  pub action : CompletionAction Evidence
  pub completion_status : Option String

-- What the `target-status` event tells.
pub record Payload (Evidence : Type 0) : Type 0 where
  pub workflow_id : String
  pub actor : String
  pub from_status : Option String
  pub updated_at : ℕ
  pub status : String
  pub evidence : Option Evidence

-- `previous !== status`, for a previous status that may be missing.
unfoldable pub changed : Option String → String → Bool
changed none status = true
changed (some previous) status = if previous === status then false else true

-- `action.status ?? input.completionStatus ?? "DONE"`
abbrev pub final_status : {Evidence : Type 0} → FinalizeWorkflowItemInput Evidence → String
final_status input = or_else input.action.status (or_else input.completion_status "DONE")

-- `UPDATE work_items SET lifecycle = 'accepted', status = COALESCE(?, status), updated_at = ?`
abbrev pub promoted : ℕ → Option String → ItemRow → ItemRow
promoted ts status r = record r {
  lifecycle = "accepted";
  status = or_else status r.status;
  updated_at = ts;
}

-- `UPDATE work_items SET status = ?, updated_at = ?`
abbrev pub restated : ℕ → String → ItemRow → ItemRow
restated ts status r = record r { status = status; updated_at = ts }

-- The write on `work_items`.
unfoldable pub write_item : ℕ → String → Option Bool → Option String → List ItemRow → List ItemRow
write_item ts id (some true) status items =
    (update_where (λ r. r.id === id) (promoted ts status) items).0
write_item ts id _ (some status) items =
    (update_where (λ r. r.id === id) (restated ts status) items).0
write_item ts id _ none items = items

-- Seed the counter, add one to it, and insert the event under the number read back.
unfoldable pub append_status_event : ℕ → String → String → EventLog → EventLog
append_status_event ts id payload log =
    let next = or_else log.counter 0 + 1 in
    let row : EventRow = record {
      seq = next;
      ts = ts;
      run_id = none;
      work_item_id = some id;
      type_name = "target-status";
      level = "info";
      payload = payload;
    } in
    record { counter = some next; rows = log.rows ++ row ∷ [] }

-- The precise status row that is set.
abbrev pub status_params :
    {Evidence : Type 0} → FinalizeWorkflowItemInput Evidence → SetStatusParams
status_params input = record {
  workflow_id = input.workflow_id;
  unit_id = some (or_else input.target.unit_id "");
  target_id = some input.target.id;
  status = final_status input;
  actor = input.actor;
  reason = some "run-time";
}

abbrev pub payload_of :
    {Evidence : Type 0} → ℕ → Option String → FinalizeWorkflowItemInput Evidence → Payload Evidence
payload_of ts previous input = record {
  workflow_id = input.workflow_id;
  actor = input.actor;
  from_status = previous;
  updated_at = ts;
  status = final_status input;
  evidence = input.action.evidence;
}

module _ {Evidence : Type 0} (stringify : Payload Evidence → Option String) where
  -- `closed`: the daemon was closed before the call, which then rejects.
  unfoldable pub finalize_workflow_item :
      (closed : Bool) → ℕ → FinalizeWorkflowItemInput Evidence → Store → Option Store
  finalize_workflow_item closed ts input db =
      let previous = resolve_status input.workflow_id input.target db.statuses in
      let statuses = set_status ts (status_params input) db.statuses in
      let items = write_item ts input.target.id input.action.promote input.action.status db.items in
      let payload = stringify (payload_of ts previous input) in
      if closed
      then none
      else if changed previous (final_status input)
      then elim payload [
        | none ↦ none
        | some text ↦ some (record {
          statuses = statuses;
          items = items;
          log = append_status_event ts input.target.id text db.log;
        })
      ]
      else some (record { statuses = statuses; items = items; log = db.log })

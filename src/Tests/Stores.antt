-- ===== src/Tests/Stores.antt =====
-- Statuses, events and a finalized item of a small store.
use decompi.Base.{
  ◌++◌, ite, ℕ, ◌+◌, ◌≤◌, ◌≡◌, refl, true, false, List, [], ◌∷◌, Option, none, some, String, arith,
  length, str_dec,
}
use decompi.Core.Store.{find, query}
use decompi.Core.Events.{
  first_seq, answers, events_of, rows_from, flush, EmitEvent, EventLog, EventStore, Op, emits,
  drains, run, append_batch,
}
use decompi.Core.Events.Sequence.{flush-Answered, Answered, IsGapFree, run-IsGapFree}
use decompi.Core.Events.Queue.{known, emits_of, run-known}
use decompi.Core.Daemon.{
  write_item, changed, status_params, ItemRow, Store, Payload, FinalizeWorkflowItemInput,
  finalize_workflow_item, append_status_event,
}
use decompi.Core.Daemon.Finalize.{
  finalize-items, item_of, finalize-resolve, status_event, append_status_event-append_batch,
  finalize-IsGapFree, finalize_again,
}
use decompi.Workflow.Status.{
  at_key, probe, StatusRow, SetStatusParams, StatusTarget, set_status, resolve_status,
}

abbrev target : StatusTarget
target = record { id = "f"; unit_id = some "u" }

-- The status of the whole unit.
abbrev unit_row : StatusRow
unit_row = record {
  workflow_id = "w";
  unit_id = "u";
  target_id = "";
  status = "SKIP";
  updated_at = 1;
  actor = "a";
  reason = none;
}

abbrev rows : List StatusRow
rows = unit_row ∷ []

abbrev whole_unit : SetStatusParams
whole_unit = record {
  workflow_id = "w";
  unit_id = some "u";
  target_id = none;
  status = "DONE";
  actor = "a";
  reason = none;
}

abbrev event : EmitEvent
event = record {
  ts = 5;
  run_id = some "r";
  work_item_id = none;
  type_name = "turn";
  level = none;
  payload = "{}";
}

abbrev log : EventLog
log = record { counter = none; rows = [] }

abbrev events : EventStore
events = record {
  batch_size = 2;
  max_pending = 2;
  pending = [];
  waiting = [];
  log = log;
  settled = [];
}

-- Three events, of which the last has to wait; the first flush fails.
abbrev history : List Op
history = emits 0 event ∷ emits 1 event ∷ emits 2 event ∷ drains false ∷ drains true ∷ []

run-IsGapFree_example : IsGapFree (run events history).log
run-IsGapFree_example = run-IsGapFree history events (record { numbered = tt; counted = refl })

run-known_example :
    (known (run events history) ≡ known events + emits_of history)
    × (length (run events history).pending ≤ 2)
run-known_example = run-known history events (omega arith)

abbrev batch : List (ℕ × EmitEvent)
batch = (0, event) ∷ (1, event) ∷ []

flush-Answered_example :
    ((flush true batch events).log.rows ≡ [] ++ rows_from 0 (events_of batch))
    × ((flush true batch events).settled ≡ [] ++ answers (first_seq log) batch)
    × Answered (answers (first_seq log) batch) batch (rows_from 0 (events_of batch))
flush-Answered_example = flush-Answered batch events

append_status_event-append_batch_example :
    append_status_event 3 "f" "{}" log ≡ append_batch (status_event 3 "f" "{}" ∷ []) log
append_status_event-append_batch_example = append_status_event-append_batch 3 "f" "{}" log

abbrev item : ItemRow
item = record { id = "f"; lifecycle = "claimed"; status = "new"; updated_at = 1 }

abbrev store : Store
store = record { statuses = rows; items = item ∷ []; log = log }

-- The target is promoted; its status becomes "DONE", by default.
abbrev input : FinalizeWorkflowItemInput ℕ
input = record {
  workflow_id = "w";
  target = target;
  actor = "a";
  action = record { promote = some true; status = none; evidence = some 7 };
  completion_status = none;
}

abbrev stringify : Payload ℕ → Option String
stringify p = elim p.evidence [ none ↦ none | some e ↦ some "{}" ]

abbrev finalized : Store
finalized = record {
  statuses = set_status 9 (status_params input) rows;
  items = write_item 9 "f" (some true) none (item ∷ []);
  log = append_status_event 9 "f" "{}" log;
}

commits : finalize_workflow_item stringify false 9 input store ≡ some finalized
unfolding finalize_workflow_item changed resolve_status probe at_key query str_dec
commits = refl

finalize-resolve_example : resolve_status "w" target finalized.statuses ≡ some "DONE"
finalize-resolve_example = finalize-resolve stringify false 9 input store finalized commits

finalize-IsGapFree_example : IsGapFree finalized.log
finalize-IsGapFree_example =
    finalize-IsGapFree stringify false 9 input store finalized commits
      (record { numbered = tt; counted = refl })

finalize_again_example :
    (last : Store) × (finalize_workflow_item stringify false 10 input finalized ≡ some last)
    × (last.log ≡ finalized.log)
finalize_again_example = finalize_again stringify false 9 10 input store finalized commits

item_there : item_of "f" store.items ≡ some item
unfolding find str_dec
item_there = refl

finalize-items_example :
    item_of "g" finalized.items
    ≡ ite
        (str_dec "g" "f")
        (some (record { id = "f"; lifecycle = "accepted"; status = "new"; updated_at = 9 }))
        (item_of "g" store.items)
finalize-items_example =
    finalize-items stringify false 9 input store finalized item "g" commits item_there refl

-- Evidence that is missing cannot be serialized here.
abbrev bare : FinalizeWorkflowItemInput ℕ
bare = record input { action = record { promote = some true; status = none; evidence = none } }

test_rolls_back : finalize_workflow_item stringify false 9 bare store ≡ none
unfolding finalize_workflow_item changed resolve_status probe at_key query str_dec
test_rolls_back = refl

test_closed : finalize_workflow_item stringify true 9 input store ≡ none
unfolding finalize_workflow_item
test_closed = refl

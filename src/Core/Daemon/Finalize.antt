-- ===== src/Core/Daemon/Finalize.antt =====
-- What a finalize transaction of src/core/daemon.ts leaves behind.
use mathlib.Core.Path.{subst}
use decompi.Base.{
  ite, str_dec, ap, ◌+◌, ◌-◌, Option-cases, Bool-cases, or_else, List, [], ◌∷◌, ◌++◌, ◌∙◌, inr, ◌⊎◌,
  ◌≢◌, inl, ℕ, ◌≡◌, refl, sym, Bool, true, false, Option, some, none, String, arith, ◌===◌,
}
use decompi.Core.Store.{find, update_where}
use decompi.Core.Store.Keys.{find-update_where, find-key, updated}
use decompi.Core.Events.{row_of, rows_from, append_batch, EmitEvent, EventLog}
use decompi.Core.Events.Sequence.{append_batch-IsGapFree, IsGapFree}
use decompi.Core.Daemon.{
  restated, promoted, ItemRow, EventRow, write_item, status_params, Payload, Store,
  FinalizeWorkflowItemInput, finalize_workflow_item, final_status, changed, append_status_event,
  payload_of,
}
use decompi.Workflow.Status.{resolve_status, set_status}
use decompi.Workflow.Status.Resolve.{resolve-set_precise}

-- The row of an id.
abbrev pub item_of : String → List ItemRow → Option ItemRow
item_of = find str_dec (λ r. r.id)

module _ (id : String) (f : ItemRow → ItemRow) (keeps : (r : ItemRow) → (f r).id ≡ r.id) where
  update-other :
      (k : String) (items : List ItemRow)
      → k ≢ id
      → item_of k (update_where (λ r. r.id === id) f items).0 ≡ item_of k items
  update-other k items n =
      find-update_where (λ r. r.id) str_dec k (λ r. r.id === id) f keeps items
      ∙ untouched (item_of k items) (find-key (λ r. r.id) str_dec k items)
    where
      untouched :
          (o : Option ItemRow)
          → ((r : ItemRow) → o ≡ some r → r.id ≡ k)
          → updated (λ r. r.id === id) f o ≡ o
      untouched none h = refl
      untouched (some r) h = ground (arith, h r refl)

  update_self :
      (items : List ItemRow) (item : ItemRow)
      → item_of id items ≡ some item
      → item_of id (update_where (λ r. r.id === id) f items).0 ≡ some (f item)
  update_self items item there =
      let same = find-key (λ r. r.id) str_dec id items item there in
      find-update_where (λ r. r.id) str_dec id (λ r. r.id === id) f keeps items
      ∙ ap (updated (λ r. r.id === id) f) there
      ∙ ground arith

write_item-other :
    (ts : ℕ) (id k : String) (promote : Option Bool) (status : Option String) (items : List ItemRow)
    → k ≢ id
    → item_of k (write_item ts id promote status items) ≡ item_of k items
unfolding write_item
write_item-other ts id k (some true) status items n =
    update-other id (promoted ts status) (λ r. refl) k items n
write_item-other ts id k (some false) (some status) items n =
    update-other id (restated ts status) (λ r. refl) k items n
write_item-other ts id k none (some status) items n =
    update-other id (restated ts status) (λ r. refl) k items n
write_item-other ts id k (some false) none items n = refl
write_item-other ts id k none none items n = refl

write_item-promoted :
    (ts : ℕ) (id : String) (promote : Option Bool) (status : Option String) (items : List ItemRow)
    (item : ItemRow)
    → item_of id items ≡ some item
    → promote ≡ some true
    → item_of id (write_item ts id promote status items) ≡ some (promoted ts status item)
unfolding write_item
write_item-promoted ts id promote status items item there promotes =
    ground (arith, update_self id (promoted ts status) (λ r. refl) items item there)

-- The event that the transaction records, as `emit` would take it.
abbrev pub status_event : ℕ → String → String → EmitEvent
status_event ts id payload = record {
  ts = ts;
  run_id = none;
  work_item_id = some id;
  type_name = "target-status";
  level = none;
  payload = payload;
}

-- The transaction's own way to store its event does what the event store does for a batch that has
-- only this event.
pub append_status_event-append_batch :
    (ts : ℕ) (id payload : String) (log : EventLog)
    → append_status_event ts id payload log ≡ append_batch (status_event ts id payload ∷ []) log
unfolding append_status_event append_batch rows_from
append_status_event-append_batch ts id payload log =
    let n : ℕ = or_else log.counter 0 in
    let row : ℕ → EventRow = λ k. row_of k (status_event ts id payload) in
    let e : n + 1 ≡ n + 1 - 1 + 1 = omega arith in
    ap (λ k. record { counter = some (n + 1); rows = log.rows ++ row k ∷ [] }) e

module _ {Evidence : Type 0} (stringify : Payload Evidence → Option String) (closed : Bool) where
  -- The status and the events of a store after the transaction, when it commits.
  finalize_lem :
      (ts : ℕ) (input : FinalizeWorkflowItemInput Evidence) (db db' : Store)
      → finalize_workflow_item stringify closed ts input db ≡ some db'
      → (db'.statuses ≡ set_status ts (status_params input) db.statuses)
        × (db'.items
            ≡ write_item ts input.target.id input.action.promote input.action.status db.items)
  unfolding finalize_workflow_item
  finalize_lem ts input db db' e = ground arith

  -- A transaction that commits has made the status that it was given the status of the target.
  pub finalize-resolve :
      (ts : ℕ) (input : FinalizeWorkflowItemInput Evidence) (db db' : Store)
      → finalize_workflow_item stringify closed ts input db ≡ some db'
      → resolve_status input.workflow_id input.target db'.statuses ≡ some (final_status input)
  finalize-resolve ts input db db' e =
      subst (λ rows. resolve_status input.workflow_id input.target rows ≡ some (final_status input))
        (sym (finalize_lem ts input db db' e).0)
        (resolve-set_precise ts input.workflow_id input.target (final_status input) input.actor
          (some "run-time") db.statuses)

  -- What became of the log.
  finalize-log :
      (ts : ℕ) (input : FinalizeWorkflowItemInput Evidence) (db db' : Store)
      → finalize_workflow_item stringify closed ts input db ≡ some db'
      → (db'.log ≡ db.log)
        ⊎ ((payload : String) × (db'.log
              ≡ append_batch (status_event ts input.target.id payload ∷ []) db.log))
  unfolding finalize_workflow_item
  finalize-log ts input db db' e =
      let previous = resolve_status input.workflow_id input.target db.statuses in
      elim (Bool-cases (changed previous (final_status input))) [
        | inr same ↦ inl (ground arith)
        | inl differs ↦ elim (Option-cases (stringify (payload_of ts previous input))) [
          | inl fails ↦ absurd (ground arith)
          | inr (payload, ok) ↦
              let d : db'.log ≡ append_status_event ts input.target.id payload db.log =
                ground arith in
              inr (payload, d ∙ append_status_event-append_batch ts input.target.id payload db.log)
        ]
      ]

  -- A transaction that commits keeps the numbers of events gap-free, although it writes its event
  -- past the queue of the event store.
  pub finalize-IsGapFree :
      (ts : ℕ) (input : FinalizeWorkflowItemInput Evidence) (db db' : Store)
      → finalize_workflow_item stringify closed ts input db ≡ some db'
      → IsGapFree db.log
      → IsGapFree db'.log
  finalize-IsGapFree ts input db db' e g = elim (finalize-log ts input db db' e) [
    | inl same ↦ subst IsGapFree (sym same) g
    | inr (payload, added) ↦
        subst IsGapFree (sym added)
          (append_batch-IsGapFree (status_event ts input.target.id payload ∷ []) db.log g)
  ]

  -- A closed daemon commits nothing.
  finalize_open :
      (ts : ℕ) (input : FinalizeWorkflowItemInput Evidence) (db db' : Store)
      → finalize_workflow_item stringify closed ts input db ≡ some db'
      → closed ≡ false
  unfolding finalize_workflow_item
  finalize_open ts input db db' e = ground arith

  -- A target that has the status already is finalized whatever `stringify` does, with no event.
  finalize_same :
      (ts : ℕ) (input : FinalizeWorkflowItemInput Evidence) (db : Store)
      → closed ≡ false
      → resolve_status input.workflow_id input.target db.statuses ≡ some (final_status input)
      → (db' : Store) × (finalize_workflow_item stringify closed ts input db ≡ some db')
        × (db'.log ≡ db.log)
  unfolding finalize_workflow_item changed
  finalize_same ts input db opened e =
      let db' : Store = record {
        statuses = set_status ts (status_params input) db.statuses;
        items = write_item ts input.target.id input.action.promote input.action.status db.items;
        log = db.log;
      } in
      (db', ground arith, refl)

  -- Finalizing a target again with the same outcome, at any later time, commits and records no
  -- second event.
  pub finalize_again :
      (ts again : ℕ) (input : FinalizeWorkflowItemInput Evidence) (db db' : Store)
      → finalize_workflow_item stringify closed ts input db ≡ some db'
      → (last : Store) × (finalize_workflow_item stringify closed again input db' ≡ some last)
        × (last.log ≡ db'.log)
  finalize_again ts again input db db' e =
      finalize_same again input db' (finalize_open ts input db db' e)
        (finalize-resolve ts input db db' e)

  -- A transaction that commits a promotion of a target that has a row leaves that row accepted, with the
  -- action's status, or else the status that the row had, and leaves alone the rows of `work_items` of
  -- other targets.
  pub finalize-items :
      (ts : ℕ) (input : FinalizeWorkflowItemInput Evidence) (db db' : Store) (item : ItemRow)
      (k : String)
      → finalize_workflow_item stringify closed ts input db ≡ some db'
      → item_of input.target.id db.items ≡ some item
      → input.action.promote ≡ some true
      → item_of k db'.items
        ≡ ite
            (str_dec k input.target.id)
            (some (record {
              id = item.id;
              lifecycle = "accepted";
              status = or_else input.action.status item.status;
              updated_at = ts;
            }))
            (item_of k db.items)
  finalize-items ts input db db' item k e there promotes =
      ap (item_of k) (finalize_lem ts input db db' e).1 ∙ written (str_dec k input.target.id)
    where
      written :
          (d : Dec (k ≡ input.target.id))
          → item_of k
              (write_item ts input.target.id input.action.promote input.action.status db.items)
            ≡ ite d
                (some (record {
                  id = item.id;
                  lifecycle = "accepted";
                  status = or_else input.action.status item.status;
                  updated_at = ts;
                }))
                (item_of k db.items)
      written (yes q) =
          ap
            (λ j.
              item_of j
                (write_item ts input.target.id input.action.promote input.action.status db.items))
            q
          ∙ write_item-promoted ts input.target.id input.action.promote input.action.status db.items
              item there promotes
      written (no n) =
          write_item-other ts input.target.id k input.action.promote input.action.status db.items n

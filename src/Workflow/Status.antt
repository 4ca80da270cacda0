-- ===== src/Workflow/Status.antt =====
-- src/workflow/status.ts: one row of `workflow_status` for each (workflow, unit, target), where an
-- empty unit or target makes the row one of a whole target or of a whole unit.
pub mod Resolve
pub mod Reset
use decompi.Base.{
  ◌≡◌, ℕ, Bool, true, false, ◌&&◌, List, [], ◌∷◌, Option, none, some, String, str_dec, pair_dec,
  or_else, any, ◌===◌, if◌then◌else◌, is_some, ite,
}
use decompi.Core.Store.{query, delete_where, update_where, find, insert_ignore}

pub record StatusRow : Type 0 where
  pub workflow_id : String
  pub unit_id : String
  pub target_id : String
  pub status : String
  pub updated_at : ℕ
  pub actor : String
  pub reason : Option String

-- The UNIQUE key.
abbrev pub Key : Type 0
Key = String × (String × String)

abbrev pub key_of : StatusRow → Key
key_of r = (r.workflow_id, (r.unit_id, r.target_id))

unfoldable pub key_dec : (a b : Key) → Dec (a ≡ b)
unfolding pair_dec str_dec
key_dec = pair_dec str_dec (pair_dec str_dec str_dec)

abbrev pub row_at : Key → List StatusRow → Option StatusRow
row_at = find key_dec key_of

-- `WHERE workflow_id = ? AND unit_id = ? AND target_id = ?`
unfoldable pub at_key : Key → StatusRow → Bool
at_key (w, (u, t)) r = (r.workflow_id === w) && (r.unit_id === u) && (r.target_id === t)

pub record SetStatusParams : Type 0 where
  pub workflow_id : String
  pub unit_id : Option String
  pub target_id : Option String
  pub status : String
  pub actor : String
  pub reason : Option String

-- The row that is inserted, at the time `ts`.
abbrev pub row_of : ℕ → SetStatusParams → StatusRow
row_of ts p = record {
  workflow_id = p.workflow_id;
  unit_id = or_else p.unit_id "";
  target_id = or_else p.target_id "";
  status = p.status;
  updated_at = ts;
  actor = p.actor;
  reason = p.reason;
}

-- `SET status = ?, updated_at = ?, actor = ?, reason = ?`
abbrev pub overwrite : ℕ → SetStatusParams → StatusRow → StatusRow
overwrite ts p r = record r {
  status = p.status;
  updated_at = ts;
  actor = p.actor;
  reason = p.reason;
}

unfoldable pub set_status : ℕ → SetStatusParams → List StatusRow → List StatusRow
set_status ts p rows =
    let row = row_of ts p in
    let (rows', inserted) = insert_ignore key_dec key_of row rows in
    if inserted then rows' else (update_where (at_key (key_of row)) (overwrite ts p) rows').0

-- A target as `resolveStatus` takes it.
pub record StatusTarget : Type 0 where
  pub id : String
  pub unit_id : Option String

-- `SELECT status … LIMIT 1`, and its first row.
unfoldable pub probe : Key → List StatusRow → Option String
probe k rows = elim (query (at_key k) rows) [ [] ↦ none | r ∷ _ ↦ some r.status ]

first_hit : List Key → List StatusRow → Option String
first_hit [] rows = none
first_hit (k ∷ ks) rows =
    let rest = first_hit ks rows in elim (probe k rows) [ some s ↦ some s | none ↦ rest ]

unfoldable pub resolve_status : String → StatusTarget → List StatusRow → Option String
unfolding first_hit
resolve_status workflow target rows =
    let unit = or_else target.unit_id "" in
    first_hit
      ((workflow, (unit, target.id)) ∷ (workflow, ("", target.id)) ∷ (workflow, (unit, "")) ∷ [])
      rows

unfoldable pub is_done : String → StatusTarget → List String → List StatusRow → Bool
is_done workflow target done_statuses rows = elim (resolve_status workflow target rows) [
  | none ↦ false
  | some status ↦ any (λ d. d === status) done_statuses
]

-- The rows that `unsetStatus` deletes.
abbrev pub covers : String → Option String → Option String → StatusRow → Bool
covers workflow unit (some t) r = (r.workflow_id === workflow) && (r.target_id === t)
covers workflow (some u) none r = (r.workflow_id === workflow) && (r.unit_id === u)
covers workflow none none r = r.workflow_id === workflow

unfoldable pub unset_status :
    String → Option String → Option String → List StatusRow → List StatusRow × ℕ
unset_status workflow unit target rows = delete_where (covers workflow unit target) rows

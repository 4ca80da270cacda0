-- ===== src/Workflow/Status/Reset.antt =====
-- `unsetStatus` and `isDone` of src/workflow/status.ts.
use decompi.Workflow.Status.{Key}
use decompi.Base.{
  if◌then◌else◌, ◌&&◌, Option-cases, ap, inl, inr, ◌≡◌, ◌≢◌, List, Option, none, some, String,
  arith, ◌===◌,
}
use decompi.Core.Store.Keys.{find-delete_where, find-key}
use decompi.Workflow.Status.{
  StatusRow, key_of, key_dec, row_at, StatusTarget, resolve_status, unset_status, covers,
}
use decompi.Workflow.Status.Resolve.{
  IsKeyed, precise, target_scoped, unit_scoped, status_at, resolve_status-rows,
}

cleared :
    (workflow t : String) (k : Key) (rows : List StatusRow)
    → IsKeyed rows
    → status_at k (unset_status workflow none (some t) rows).0
      ≡ (if (k.0 === workflow) && (k.1.1 === t) then none else status_at k rows)
unfolding unset_status
cleared workflow t k rows u = elim (Option-cases (row_at k rows)) [
  | inl e ↦
      rw (find-delete_where key_of key_dec k (covers workflow none (some t)) rows u, e)
        (ground arith)
  | inr (r, e) ↦
      let same = find-key key_of key_dec k rows r e in
      rw (find-delete_where key_of key_dec k (covers workflow none (some t)) rows u, e)
        (ground (arith, ap (λ j. j.0) same, ap (λ j. j.1.1) same))
]

-- In a table with at most one row a key, clearing the status of a target with a name removes its
-- precise and its target-scoped rows, so the target falls back to the status of its unit, if that
-- has one.
pub unset-resolve :
    (workflow : String) (target : StatusTarget) (unit : Option String) (rows : List StatusRow)
    → IsKeyed rows
    → target.id ≢ ""
    → resolve_status workflow target (unset_status workflow unit (some target.id) rows).0
      ≡ status_at (unit_scoped workflow target) rows
unfolding unset_status
unset-resolve workflow target unit rows u named =
    let after = (unset_status workflow unit (some target.id) rows).0 in
    ground (
      arith,
      resolve_status-rows workflow target after,
      cleared workflow target.id (precise workflow target) rows u,
      cleared workflow target.id (target_scoped workflow target) rows u,
      cleared workflow target.id (unit_scoped workflow target) rows u,
    )

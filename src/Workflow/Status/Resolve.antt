-- ===== src/Workflow/Status/Resolve.antt =====
-- `resolveStatus` of src/workflow/status.ts: the most specific row wins.
use mathlib.Core.Path.{subst}
use mathlib.Core.Logic.{if_pos, if_neg}
use decompi.Base.{
  ite, ◌∙◌, Bool-cases, ℕ, ◌≡◌, refl, ◌≢◌, sym, ap, true, List, [], ◌∷◌, Option, none, some, String,
  arith, or_else, inl, inr,
}
use decompi.Core.Store.{query, find}
use decompi.Core.Store.Keys.{
  insert_ignore-cases, find-Absent, find-key, Unique, update_where-Unique, find-update_where,
  updated,
}
use decompi.Workflow.Status.{
  StatusRow, Key, key_of, key_dec, row_at, at_key, SetStatusParams, row_of, set_status, overwrite,
  StatusTarget, probe, resolve_status,
}

abbrev pub status_of : Option StatusRow → Option String
status_of none = none
status_of (some r) = some r.status

-- `a ?? b`
abbrev pub first : Option String → Option String → Option String
first none b = b
first (some a) b = some a

at_key→ : (k : Key) (r : StatusRow) → at_key k r ≡ true → key_of r ≡ k
unfolding at_key
at_key→ (w, (u, t)) r h = ground arith

key→at : (r : StatusRow) → at_key (key_of r) r ≡ true
unfolding at_key
key→at r = ground arith

→at_key : (k : Key) (r : StatusRow) → key_of r ≡ k → at_key k r ≡ true
→at_key k r e = subst (λ j. at_key j r ≡ true) e (key→at r)

-- A probe reads the row of its key.
pub probe-row_at : (k : Key) (rows : List StatusRow) → probe k rows ≡ status_of (row_at k rows)
unfolding query find probe
probe-row_at k [] = refl
probe-row_at k (r ∷ rows) = ground (arith, at_key→ k r, →at_key k r, probe-row_at k rows)

abbrev pub IsKeyed : List StatusRow → Type 0
IsKeyed = Unique key_of

-- The rows in the order of their claim on a target.
abbrev pub precise : String → StatusTarget → Key
precise workflow target = (workflow, (or_else target.unit_id "", target.id))

abbrev pub target_scoped : String → StatusTarget → Key
target_scoped workflow target = (workflow, ("", target.id))

abbrev pub unit_scoped : String → StatusTarget → Key
unit_scoped workflow target = (workflow, (or_else target.unit_id "", ""))

abbrev pub status_at : Key → List StatusRow → Option String
status_at k rows = status_of (row_at k rows)

-- The status of a target is that of its precise row, else of its target-scoped row, else of its
-- unit's row, else none: never a mixture.
pub resolve_status-rows :
    (workflow : String) (target : StatusTarget) (rows : List StatusRow)
    → resolve_status workflow target rows
      ≡ first (status_at (precise workflow target) rows) (
          first
            (status_at (target_scoped workflow target) rows)
            (status_at (unit_scoped workflow target) rows))
unfolding resolve_status
resolve_status-rows workflow target rows = ground (
  arith,
  probe-row_at (precise workflow target) rows,
  probe-row_at (target_scoped workflow target) rows,
  probe-row_at (unit_scoped workflow target) rows,
)

set_status-IsKeyed :
    (ts : ℕ) (p : SetStatusParams) (rows : List StatusRow)
    → IsKeyed rows
    → IsKeyed (set_status ts p rows)
unfolding set_status
set_status-IsKeyed ts p rows u =
    let row = row_of ts p in
    elim (insert_ignore-cases key_of key_dec row rows) [
      | inl (e, none_there) ↦
          rw (e, set_status) (find-Absent key_of key_dec (key_of row) rows none_there, u)
      | inr (x, e, there) ↦
          rw (e, set_status)
            (update_where-Unique key_of (at_key (key_of row)) (overwrite ts p) (λ r. refl) rows u)
    ]

pub set_status-row :
    (ts : ℕ) (p : SetStatusParams) (rows : List StatusRow)
    → row_at (key_of (row_of ts p)) (set_status ts p rows) ≡ some (row_of ts p)
unfolding set_status find
set_status-row ts p rows =
    let row = row_of ts p in
    elim (insert_ignore-cases key_of key_dec row rows) [
      | inl (e, none_there) ↦ rw (e, set_status) (find-cons_self row rows)
      | inr (x, e, there) ↦
          let same = find-key key_of key_dec (key_of row) rows x there in
          let hit = subst (λ j. at_key j x ≡ true) same (key→at x) in
          rw
            (
              e,
              set_status,
              find-update_where key_of key_dec (key_of row) (at_key (key_of row)) (overwrite ts p)
                  (λ r. refl) rows,
              there,
              hit,
            )
            (ground arith)
    ]
  where
    find-cons_self :
        (row : StatusRow) (rows : List StatusRow) → row_at (key_of row) (row ∷ rows) ≡ some row
    find-cons_self row rows = if_pos (key_dec (key_of row) (key_of row)) refl _ _

pub set_status-other :
    (ts : ℕ) (p : SetStatusParams) (rows : List StatusRow) (k : Key)
    → key_of (row_of ts p) ≢ k
    → row_at k (set_status ts p rows) ≡ row_at k rows
unfolding set_status find
set_status-other ts p rows k n =
    let row = row_of ts p in
    elim (insert_ignore-cases key_of key_dec row rows) [
      | inl (e, none_there) ↦ rw (e, set_status, find, if_neg _ n)
      | inr (x, e, there) ↦
          rw
            (
              e,
              set_status,
              find-update_where key_of key_dec k (at_key (key_of row)) (overwrite ts p) (λ r. refl)
                  rows,
            )
            (untouched (row_at k rows) (λ y f. find-key key_of key_dec k rows y f))
    ]
  where
    untouched :
        (o : Option StatusRow)
        → ((y : StatusRow) → o ≡ some y → key_of y ≡ k)
        → updated (at_key (key_of (row_of ts p))) (overwrite ts p) o ≡ o
    untouched none h = refl
    untouched (some y) h = elim (Bool-cases (at_key (key_of (row_of ts p)) y)) [
      | inl hit ↦ absurd (n (sym (at_key→ _ y hit) ∙ h y refl))
      | inr miss ↦ rw miss
    ]

-- Where the table has at most one row a key, it still has after a status is set; the row of the key
-- that it is set for is then the row asked for, whether or not there was one, and the rows of other
-- keys are as they were.
set_status_lem :
    (ts : ℕ) (p : SetStatusParams) (rows : List StatusRow) (k : Key)
    → IsKeyed rows
    → IsKeyed (set_status ts p rows)
      × (row_at k (set_status ts p rows)
          ≡ ite (key_dec (key_of (row_of ts p)) k) (some (row_of ts p)) (row_at k rows))
set_status_lem ts p rows k u =
    (set_status-IsKeyed ts p rows u, there (key_dec (key_of (row_of ts p)) k))
  where
    there :
        (d : Dec (key_of (row_of ts p) ≡ k))
        → row_at k (set_status ts p rows) ≡ ite d (some (row_of ts p)) (row_at k rows)
    there (yes e) =
        subst (λ j. row_at j (set_status ts p rows) ≡ some (row_of ts p)) e
          (set_status-row ts p rows)
    there (no n) = set_status-other ts p rows k n

-- The status last set for a target of its unit is the target's status, whatever other rows there
-- are: a status of the unit, or of the target in all units, never hides it.
pub resolve-set_precise :
    (ts : ℕ) (workflow : String) (target : StatusTarget) (status actor : String)
    (reason : Option String) (rows : List StatusRow)
    → resolve_status workflow target (
        set_status ts
          (record {
            workflow_id = workflow;
            unit_id = some (or_else target.unit_id "");
            target_id = some target.id;
            status = status;
            actor = actor;
            reason = reason;
          })
          rows)
      ≡ some status
resolve-set_precise ts workflow target status actor reason rows =
    let p : SetStatusParams = record {
      workflow_id = workflow;
      unit_id = some (or_else target.unit_id "");
      target_id = some target.id;
      status = status;
      actor = actor;
      reason = reason;
    } in
    ground
      (arith, resolve_status-rows workflow target (set_status ts p rows), set_status-row ts p rows)

unit_row-ne :
    (ts : ℕ) (p : SetStatusParams) (k : Key)
    → p.target_id ≡ none
    → k.1.1 ≢ ""
    → key_of (row_of ts p) ≢ k
unit_row-ne ts p k e n h = n (sym (ap (λ j. j.1.1) h) ∙ ap (λ o. or_else o "") e)

-- A status set for a whole unit leaves alone every target of a name that has a precise or a
-- target-scoped status in the workflow, and gives its status to every other target of the unit.
pub resolve-set_unit :
    (ts : ℕ) (p : SetStatusParams) (target : StatusTarget) (rows : List StatusRow)
    → p.target_id ≡ none
    → p.unit_id ≡ some (or_else target.unit_id "")
    → target.id ≢ ""
    → let after = set_status ts p rows in
      let own =
        first
          (status_at (precise p.workflow_id target) rows)
          (status_at (target_scoped p.workflow_id target) rows) in
      resolve_status p.workflow_id target after ≡ first own (some p.status)
resolve-set_unit ts p target rows no_target unit named = ground (
  arith,
  resolve_status-rows p.workflow_id target (set_status ts p rows),
  set_status-row ts p rows,
  set_status-other ts p rows (precise p.workflow_id target) (unit_row-ne ts p _ no_target named),
  set_status-other ts p rows (target_scoped p.workflow_id target)
      (unit_row-ne ts p _ no_target named),
)

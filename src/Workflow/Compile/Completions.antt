-- ===== src/Workflow/Compile/Completions.antt =====
-- What the completions of a run of a workflow of src/workflow/compile.ts leave in the table of statuses.
use mathlib.Core.Path.{subst}
use decompi.Base.{
  Bool, Option-cases, ◌⊎◌, inl, inr, ap, sym, ℕ, ◌≡◌, true, false, List, [], ◌∷◌, ◌++◌, Option,
  none, some, String, ◌===◌, or_else, any, Bool-cases,
}
use decompi.Pipeline.Engine.{Item}
use decompi.Pipeline.Engine.AgentLoop.{CompletionAction}
use decompi.Pipeline.Engine.Completion.{store_finalize, status_or}
use decompi.Workflow.Status.{
  StatusRow, StatusTarget, SetStatusParams, Key, key_of, key_dec, row_of, row_at, set_status,
  is_done, resolve_status,
}
use decompi.Workflow.Status.Resolve.{
  resolve_status-rows, first, status_at, set_status-row, set_status-other, precise, target_scoped,
  unit_scoped, resolve-set_precise, status_of,
}

abbrev pub target_of : Item → StatusTarget
target_of item = record { id = item.id; unit_id = item.unit_id }

-- A status among the done ones, where there is a status.
abbrev Done : List String → Option String → Type 0
Done done none = ⊥
Done done (some status) = any (λ d. d === status) done ≡ true

Done-first :
    (done : List String) (status : String) (a a' x x' : Option String)
    → (a' ≡ a) ⊎ (a' ≡ some status)
    → Done done (some status)
    → (Done done x → Done done x')
    → Done done (first a x)
    → Done done (first a' x')
Done-first done status none a' x x' (inl e) ok later h = rw e (later h)
Done-first done status (some s) a' x x' (inl e) ok later h = rw e h
Done-first done status none a' x x' (inr e) ok later h = rw e ok
Done-first done status (some s) a' x x' (inr e) ok later h = rw e ok

status_at-set :
    (ts : ℕ) (p : SetStatusParams) (rows : List StatusRow) (k : Key)
    → (status_at k (set_status ts p rows) ≡ status_at k rows)
      ⊎ (status_at k (set_status ts p rows) ≡ some p.status)
status_at-set ts p rows k = elim (key_dec (key_of (row_of ts p)) k) [
  | yes e ↦ inr (
      ap status_of (
        subst (λ j. row_at j (set_status ts p rows) ≡ some (row_of ts p)) e
          (set_status-row ts p rows)))
  | no n ↦ inl (ap status_of (set_status-other ts p rows k n))
]

is_done-Done :
    (workflow : String) (target : StatusTarget) (done : List String) (rows : List StatusRow)
    → (is_done workflow target done rows ≡ true → Done done (resolve_status workflow target rows))
      × (Done done (resolve_status workflow target rows) → is_done workflow target done rows ≡ true)
unfolding is_done
is_done-Done workflow target done rows = elim (Option-cases (resolve_status workflow target rows)) [
  | inl e ↦ (λ h. cc (rw (is_done, e) at h), λ h. absurd (rw e at h))
  | inr (status, e) ↦ (λ h. rw e (rw (is_done, e) at h), λ h. rw (is_done, e) (rw e at h))
]

-- A done status that is set for anything leaves what is done done.
is_done-set :
    (ts : ℕ) (p : SetStatusParams) (target : StatusTarget) (workflow : String) (done : List String)
    (rows : List StatusRow)
    → Done done (some p.status)
    → is_done workflow target done rows ≡ true
    → is_done workflow target done (set_status ts p rows) ≡ true
is_done-set ts p target workflow done rows ok h =
    let after = set_status ts p rows in
    let k1 = precise workflow target in
    let k2 = target_scoped workflow target in
    let k3 = unit_scoped workflow target in
    let old =
      subst (Done done) (resolve_status-rows workflow target rows)
        ((is_done-Done workflow target done rows).0 h) in
    (is_done-Done workflow target done after).1 (
      subst (Done done) (sym (resolve_status-rows workflow target after)) (
        Done-first done p.status (status_at k1 rows) (status_at k1 after) _ _
          (status_at-set ts p rows k1) ok
          (Done-first done p.status (status_at k2 rows) (status_at k2 after) _ _
            (status_at-set ts p rows k2) ok
            (last (status_at k3 rows) (status_at k3 after) (status_at-set ts p rows k3)))
          old))
  where
    last : (c c' : Option String) → (c' ≡ c) ⊎ (c' ≡ some p.status) → Done done c → Done done c'
    last c c' (inl e) d = subst (Done done) (sym e) d
    last c c' (inr e) d = subst (Done done) (sym e) ok

-- Completions, each with its time.
abbrev pub Completion : Type 0
Completion = ℕ × (Item × CompletionAction)

unfoldable pub complete_all :
    String → Option String → List Completion → List StatusRow → List StatusRow
complete_all workflow status [] rows = rows
complete_all workflow status ((ts, (item, action)) ∷ calls) rows =
    complete_all workflow status calls (store_finalize ts workflow status item action rows)

-- Each completion that promotes writes a done status; the others write nothing.
abbrev pub WritesDone : List String → Option String → List Completion → Type 0
WritesDone done status [] = Unit
WritesDone done status ((ts, (item, action)) ∷ calls) =
    (action.promote ≡ some true
      → any (λ d. d === status_or action.status (or_else status "DONE")) done ≡ true)
    × WritesDone done status calls

promote-some : (promote : Option Bool) → or_else promote false ≡ true → promote ≡ some true
promote-some none h = cc
promote-some (some b) h = ap some h

module _ (workflow : String) (status : Option String) (done : List String) where
  complete_all-is_done :
      (calls : List Completion) (target : StatusTarget) (rows : List StatusRow)
      → WritesDone done status calls
      → is_done workflow target done rows ≡ true
      → is_done workflow target done (complete_all workflow status calls rows) ≡ true
  unfolding complete_all store_finalize
  complete_all-is_done [] target rows w h = h
  complete_all-is_done ((ts, (item, action)) ∷ calls) target rows w h =
      elim (Bool-cases (or_else action.promote false)) [
        | inl e ↦ rw e (
            complete_all-is_done calls target _ w.1
              (is_done-set ts _ target workflow done rows (w.0 (promote-some action.promote e)) h))
        | inr e ↦ rw e (complete_all-is_done calls target rows w.1 h)
      ]

  store_finalize-is_done :
      (ts : ℕ) (item : Item) (action : CompletionAction) (rows : List StatusRow)
      → action.promote ≡ some true
      → any (λ d. d === status_or action.status (or_else status "DONE")) done ≡ true
      → is_done workflow (target_of item) done (store_finalize ts workflow status item action rows)
        ≡ true
  unfolding store_finalize
  store_finalize-is_done ts item action rows promotes ok = rw promotes (
      (is_done-Done workflow (target_of item) done _).1 (
        rw
          (resolve-set_precise ts workflow (target_of item)
            (status_or action.status (or_else status "DONE")) "run" (some "run-time") rows)
          ok))

  -- What a completion that promotes has set done is done at the end.
  pub complete_all-done :
      (before after : List Completion) (ts : ℕ) (item : Item) (action : CompletionAction)
      (rows : List StatusRow)
      → WritesDone done status (before ++ (ts, (item, action)) ∷ after)
      → action.promote ≡ some true
      → is_done workflow
          (target_of item)
          done
          (complete_all workflow status (before ++ (ts, (item, action)) ∷ after) rows)
        ≡ true
  unfolding complete_all
  complete_all-done [] after ts item action rows w promotes =
      complete_all-is_done after (target_of item) _ w.1
        (store_finalize-is_done ts item action rows promotes (w.0 promotes))
  complete_all-done ((ts', (item', action')) ∷ before) after ts item action rows w promotes =
      complete_all-done before after ts item action _ w.1 promotes

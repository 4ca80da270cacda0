-- ===== src/Target/Registry/Accepted.antt =====
-- What the validation of src/target/registry.ts lets through is well formed, whatever was read.
use mathlib.Core.Path.{subst}
use decompi.Base.{inl, inr, ℕ, suc, ◌≡◌, refl, List, [], ◌∷◌, String, All, Bool-cases}
use decompi.Base.Results.{
  ok, err, ◌>>=◌, Value, Values, undefined, null, boolean, number, text, array, object, none_left,
  value_then,
}
use decompi.Target.WorkItem.{WorkItem}
use decompi.Target.Deps.{DepEdge, Capability}
use decompi.Target.Registry.{
  Snapshot, Place, work_items_at, deps_at, capabilities_at, Checked, Fields, entry, check_item,
  check_dep, check_capability, check_entries, entries_of, lifecycle_vocab, among, item_ids,
  check_lifecycles, check_ends, check_owners, check_references, validate_fields,
  validate_registry_snapshot,
}
use decompi.Target.Registry.WellFormed.{
  IsWellFormedItem, IsWellFormedDep, IsWellFormedCapability, IsWellFormed,
}
use decompi.Target.Registry.Entries.{
  bind-Gives, Anything, six-Gives, four-Gives, IsItem, IsDep, IsCapability, check_item-IsItem,
  check_dep-IsDep, check_capability-IsCapability, Gives,
}

entry-Gives :
    {A : Type 0} (P : A → Type 0) (place : Place) (v : Value) (check : Fields → Checked A)
    → ((raw : Fields) → Gives P (check raw))
    → Gives P (entry place v check)
entry-Gives P place (object f) check h = h f
entry-Gives P place undefined check h = tt
entry-Gives P place null check h = tt
entry-Gives P place (boolean b) check h = tt
entry-Gives P place (number n) check h = tt
entry-Gives P place (text s) check h = tt
entry-Gives P place (array vs) check h = tt

check_entries-Gives :
    {A : Type 0} (P : A → Type 0) (at : ℕ → Place) (check : Place → Fields → Checked A)
    → ((place : Place) (raw : Fields) → Gives P (check place raw))
    → (index : ℕ) (vs : Values) → Gives (All P) (check_entries at check index vs)
unfolding check_entries
check_entries-Gives P at check h index none_left = tt
check_entries-Gives P at check h index (value_then v vs) =
    bind-Gives P (All P) (entry (at index) v (check (at index)))
      (λ x. check_entries at check (suc index) vs >>= λ xs. ok (x ∷ xs))
      (entry-Gives P (at index) v (check (at index)) (h (at index)))
      (λ x hx.
        bind-Gives (All P) (All P) (check_entries at check (suc index) vs) (λ xs. ok (x ∷ xs))
          (check_entries-Gives P at check h (suc index) vs) (λ xs hxs. (hx, hxs)))

-- Passing a check of the references.
check_lifecycles-All :
    (i : ℕ) (items : List WorkItem)
    → All IsItem items
    → check_lifecycles i items ≡ ok tt
    → All IsWellFormedItem items
unfolding check_lifecycles
check_lifecycles-All i [] all h = tt
check_lifecycles-All i (item ∷ items) all h =
    elim (Bool-cases (among item.lifecycle lifecycle_vocab)) [
      | inl known ↦ (
        record {
          id = all.0.0;
          kind = all.0.1;
          status = all.0.2;
          lifecycle = known;
          meta = all.0.3;
        },
        check_lifecycles-All (suc i) items all.1 (rw known at h),
      )
      | inr unknown ↦ absurd (cc (rw unknown at h))
    ]

check_ends-All :
    (ids : List String) (i : ℕ) (deps : List DepEdge)
    → All IsDep deps
    → check_ends ids i deps ≡ ok tt
    → All (IsWellFormedDep ids) deps
unfolding check_ends
check_ends-All ids i [] all h = tt
check_ends-All ids i (dep ∷ deps) all h = elim (Bool-cases (among dep.from_id ids)) [
  | inl from ↦ elim (Bool-cases (among dep.to_id ids)) [
    | inl to ↦ (
      record { from_id = all.0.0; to_id = all.0.1; from_item = from; to_item = to },
      check_ends-All ids (suc i) deps all.1 (rw (from, to) at h),
    )
    | inr unknown ↦ absurd (cc (rw (from, unknown) at h))
  ]
  | inr unknown ↦ absurd (cc (rw unknown at h))
]

check_owners-All :
    (ids : List String) (i : ℕ) (cs : List Capability)
    → All IsCapability cs
    → check_owners ids i cs ≡ ok tt
    → All (IsWellFormedCapability ids) cs
unfolding check_owners
check_owners-All ids i [] all h = tt
check_owners-All ids i (c ∷ cs) all h = elim (Bool-cases (among c.work_item_id ids)) [
  | inl known ↦ (
    record { work_item_id = all.0.0; capability = all.0.1; item = known },
    check_owners-All ids (suc i) cs all.1 (rw known at h),
  )
  | inr unknown ↦ absurd (cc (rw unknown at h))
]

-- A check without a result gives its success.
passed : (m : Checked (Unit {0})) → Gives (λ u. m ≡ ok tt) m
passed (ok u) = refl
passed (err e) = tt

check_references-Gives :
    (s : Snapshot)
    → All IsItem s.work_items
    → All IsDep s.deps
    → All IsCapability s.capabilities
    → Gives IsWellFormed (check_references s)
unfolding check_references
check_references-Gives s items deps capabilities =
    let ids = item_ids s.work_items in
    let m1 = check_lifecycles 0 s.work_items in
    let m2 = check_ends ids 0 s.deps in
    let m3 = check_owners ids 0 s.capabilities in
    four-Gives (λ u. m1 ≡ ok tt) (λ u. m2 ≡ ok tt) (λ u. m3 ≡ ok tt) (λ r. s ≡ r) IsWellFormed m1 m2
      m3 (ok s) (λ a b c r. ok r) (passed m1) (passed m2) (passed m3) refl
      (λ a b c r p1 p2 p3 same. subst IsWellFormed same (record {
        work_items = check_lifecycles-All 0 s.work_items items p1;
        deps = check_ends-All ids 0 s.deps deps p2;
        capabilities = check_owners-All ids 0 s.capabilities capabilities p3;
      }))

validate_fields-Gives : (raw : Fields) → Gives IsWellFormed (validate_fields raw)
unfolding validate_fields
validate_fields-Gives raw =
    six-Gives IsWellFormed (entries_of "workItems" (raw "workItems"))
      (entries_of "deps" (raw "deps")) (entries_of "capabilities" (raw "capabilities")) (ok tt)
      (ok tt) (ok tt) (λ items deps capabilities a b c. checked items deps capabilities)
      (λ items deps capabilities a b c. checked-Gives items deps capabilities)
  where
    checked : Values → Values → Values → Checked Snapshot
    checked items deps capabilities = do
      work_items' ← check_entries work_items_at check_item 0 items
      deps' ← check_entries deps_at check_dep 0 deps
      capabilities' ← check_entries capabilities_at check_capability 0 capabilities
      check_references
          (record { work_items = work_items'; deps = deps'; capabilities = capabilities' })

    checked-Gives :
        (items deps capabilities : Values) → Gives IsWellFormed (checked items deps capabilities)
    checked-Gives items deps capabilities =
        four-Gives (All IsItem) (All IsDep) (All IsCapability) Anything IsWellFormed
          (check_entries work_items_at check_item 0 items) (check_entries deps_at check_dep 0 deps)
          (check_entries capabilities_at check_capability 0 capabilities) (ok tt)
          (λ xs ds cs u.
            check_references (record { work_items = xs; deps = ds; capabilities = cs }))
          (check_entries-Gives IsItem work_items_at check_item check_item-IsItem 0 items)
          (check_entries-Gives IsDep deps_at check_dep check_dep-IsDep 0 deps)
          (check_entries-Gives IsCapability capabilities_at check_capability
            check_capability-IsCapability 0 capabilities)
          tt
          (λ xs ds cs u hxs hds hcs hu.
            check_references-Gives (record { work_items = xs; deps = ds; capabilities = cs }) hxs
              hds hcs)

validate-Gives : (v : Value) → Gives IsWellFormed (validate_registry_snapshot v)
unfolding validate_registry_snapshot
validate-Gives (object f) = validate_fields-Gives f
validate-Gives undefined = tt
validate-Gives null = tt
validate-Gives (boolean b) = tt
validate-Gives (number n) = tt
validate-Gives (text s) = tt
validate-Gives (array vs) = tt

-- Whatever is read, what the validation accepts is well formed: every item has an id, a kind, a status, a
-- lifecycle of the vocabulary and an object as its meta, and every edge and capability names items of
-- the snapshot.
pub validate-ok-IsWellFormed :
    (v : Value) (s : Snapshot) → validate_registry_snapshot v ≡ ok s → IsWellFormed s
validate-ok-IsWellFormed v s h = rw h at (validate-Gives v)

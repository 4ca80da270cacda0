-- ===== src/Target/Registry/Validation.antt =====
-- What the validation of src/target/registry.ts accepts: exactly the well-formed snapshots, as they are.
use decompi.Base.{
  ℕ, suc, ◌≡◌, refl, ◌≢◌, List, [], ◌∷◌, Option, none, some, String, str_dec, arith, All,
}
use decompi.Base.Results.{ok, Value, undefined, null, boolean, number, text, array, object}
use decompi.Target.WorkItem.{WorkItem}
use decompi.Target.Deps.{
  DepKind, depends_on, calls, unresolved_calls, abi_helper, kind_text, DepEdge, Capability,
}
use decompi.Target.Registry.{
  Snapshot, must_be_string, must_be_number, must_be_object, must_be_non_empty, Place, work_items_at,
  deps_at, capabilities_at, SnapshotError, Checked, Fields, string_value, optional_string,
  number_value, optional_number, non_empty, required_string, optional_boolean, meta_value, entry,
  check_item, check_columns, check_amounts, kind_named, check_dep, check_capability, check_entries,
  item_ids, check_lifecycles, check_ends, check_owners, check_references,
  validate_registry_snapshot,
}
use decompi.Target.Registry.WellFormed.{
  string_or, number_or, item_value, dep_value, capability_value, values, snapshot_value, IsObject,
  IsWellFormedItem, IsWellFormedDep, IsWellFormedCapability, IsWellFormed,
}

string_value-or : (e : SnapshotError) (o : Option String) → string_value e (string_or o) ≡ ok o
unfolding string_value
string_value-or e none = refl
string_value-or e (some s) = refl

number_value-or : (e : SnapshotError) (o : Option ℕ) → number_value e (number_or o) ≡ ok o
unfolding number_value
number_value-or e none = refl
number_value-or e (some n) = refl

meta_value-object : (e : SnapshotError) (v : Value) → IsObject v → meta_value e v ≡ ok v
unfolding meta_value
meta_value-object e (object f) h = refl
meta_value-object e undefined h = elim h [ ]
meta_value-object e null h = elim h [ ]
meta_value-object e (boolean b) h = elim h [ ]
meta_value-object e (number n) h = elim h [ ]
meta_value-object e (text s) h = elim h [ ]
meta_value-object e (array vs) h = elim h [ ]

non_empty-eq-ok : (e : SnapshotError) (s : String) → s ≢ "" → non_empty e (some s) ≡ ok s
unfolding non_empty
non_empty-eq-ok e s h = ground (arith, h)

check_item-value :
    (place : Place) (item : WorkItem)
    → IsWellFormedItem item
    → entry place (item_value item) (check_item place) ≡ ok item
unfolding check_item check_columns check_amounts optional_string optional_number required_string
    optional_boolean string_value str_dec
check_item-value place item w =
    let str = λ (name : String). string_value-or (must_be_string place name) in
    rw
      (
        check_item,
        non_empty-eq-ok (must_be_non_empty place "id") item.id w.id,
        non_empty-eq-ok (must_be_non_empty place "kind") item.kind w.kind,
        non_empty-eq-ok (must_be_non_empty place "status") item.status w.status,
        str "unitId" item.unit_id,
        str "region" item.region,
        str "symbol" item.symbol,
        str "address" item.address,
        str "milestone" item.milestone,
        str "requiredLevel" item.required_level,
        number_value-or (must_be_number place "size") item.size,
        str "source" item.source,
        meta_value-object (must_be_object place "meta") item.meta w.meta,
      )
      refl

kind_named-kind_text : (kind : DepKind) → kind_named (kind_text kind) ≡ some kind
unfolding kind_named kind_text str_dec
kind_named-kind_text depends_on = refl
kind_named-kind_text calls = refl
kind_named-kind_text unresolved_calls = refl
kind_named-kind_text abi_helper = refl

kind_text-ne : (kind : DepKind) → kind_text kind ≢ ""
unfolding kind_text
kind_text-ne depends_on e = cc
kind_text-ne calls e = cc
kind_text-ne unresolved_calls e = cc
kind_text-ne abi_helper e = cc

check_dep-value :
    (ids : List String) (place : Place) (dep : DepEdge)
    → IsWellFormedDep ids dep
    → entry place (dep_value dep) (check_dep place) ≡ ok dep
unfolding check_dep optional_string required_string string_value str_dec
check_dep-value ids place dep w =
    rw
      (
        check_dep,
        non_empty-eq-ok (must_be_non_empty place "fromId") dep.from_id w.from_id,
        non_empty-eq-ok (must_be_non_empty place "toId") dep.to_id w.to_id,
        non_empty-eq-ok (must_be_non_empty place "kind") (kind_text dep.kind)
            (kind_text-ne dep.kind),
        kind_named-kind_text dep.kind,
      )
      refl

check_capability-value :
    (ids : List String) (place : Place) (c : Capability)
    → IsWellFormedCapability ids c
    → entry place (capability_value c) (check_capability place) ≡ ok c
unfolding check_capability optional_string required_string string_value str_dec
check_capability-value ids place c w =
    rw
      (
        check_capability,
        non_empty-eq-ok (must_be_non_empty place "workItemId") c.work_item_id w.work_item_id,
        non_empty-eq-ok (must_be_non_empty place "capability") c.capability w.capability,
      )
      refl

check_entries-values :
    {A : Type 0} (P : A → Type 0) (at : ℕ → Place) (check : Place → Fields → Checked A)
    (value : A → Value)
    → ((place : Place) (a : A) → P a → entry place (value a) (check place) ≡ ok a)
    → (index : ℕ) (xs : List A) → All P xs
    → check_entries at check index (values value xs) ≡ ok xs
unfolding check_entries
check_entries-values P at check value good index [] all = refl
check_entries-values P at check value good index (x ∷ xs) all =
    rw (good (at index) x all.0, check_entries-values P at check value good (suc index) xs all.1)
      refl

check_lifecycles-eq-ok :
    (i : ℕ) (items : List WorkItem) → All IsWellFormedItem items → check_lifecycles i items ≡ ok tt
unfolding check_lifecycles
check_lifecycles-eq-ok i [] all = refl
check_lifecycles-eq-ok i (item ∷ items) all =
    let known = all.0.lifecycle in rw known (check_lifecycles-eq-ok (suc i) items all.1)

check_ends-eq-ok :
    (ids : List String) (i : ℕ) (deps : List DepEdge)
    → All (IsWellFormedDep ids) deps
    → check_ends ids i deps ≡ ok tt
unfolding check_ends
check_ends-eq-ok ids i [] all = refl
check_ends-eq-ok ids i (dep ∷ deps) all =
    let from = all.0.from_item in
    let to = all.0.to_item in rw (from, to) (check_ends-eq-ok ids (suc i) deps all.1)

check_owners-eq-ok :
    (ids : List String) (i : ℕ) (cs : List Capability)
    → All (IsWellFormedCapability ids) cs
    → check_owners ids i cs ≡ ok tt
unfolding check_owners
check_owners-eq-ok ids i [] all = refl
check_owners-eq-ok ids i (c ∷ cs) all =
    let known = all.0.item in rw known (check_owners-eq-ok ids (suc i) cs all.1)

-- A well-formed snapshot is accepted as it is.
pub validate-IsWellFormed :
    (s : Snapshot) → IsWellFormed s → validate_registry_snapshot (snapshot_value s) ≡ ok s
unfolding validate_registry_snapshot check_references str_dec
validate-IsWellFormed s w =
    let ids = item_ids s.work_items in
    rw
      (
        check_entries-values IsWellFormedItem work_items_at check_item item_value check_item-value 0
            s.work_items w.work_items,
        check_entries-values (IsWellFormedDep ids) deps_at check_dep dep_value (check_dep-value ids)
            0 s.deps w.deps,
        check_entries-values (IsWellFormedCapability ids) capabilities_at check_capability
            capability_value (check_capability-value ids) 0 s.capabilities w.capabilities,
        check_lifecycles-eq-ok 0 s.work_items w.work_items,
        check_ends-eq-ok ids 0 s.deps w.deps,
        check_owners-eq-ok ids 0 s.capabilities w.capabilities,
      )
      refl

-- ===== src/Target/Registry/WellFormed.antt =====
-- Well-formed snapshots of src/target/registry.ts, and the values that they are written as.
use decompi.Base.{
  ℕ, ◌≡◌, ◌≢◌, true, List, [], ◌∷◌, Option, none, some, String, ◌===◌, if◌then◌else◌, All,
}
use decompi.Base.Results.{
  Value, Values, undefined, boolean, number, text, array, object, none_left, value_then,
}
use decompi.Target.WorkItem.{WorkItem}
use decompi.Target.Deps.{kind_text, DepEdge, Capability}
use decompi.Target.Registry.{Snapshot, lifecycle_vocab, among, item_ids}

abbrev pub string_or : Option String → Value
string_or none = undefined
string_or (some s) = text s

abbrev pub number_or : Option ℕ → Value
number_or none = undefined
number_or (some n) = number n

-- The objects of a snapshot.
abbrev pub item_value : WorkItem → Value
item_value item = object (λ k.
    if k === "id"
    then text item.id
    else if k === "kind"
    then text item.kind
    else if k === "lifecycle"
    then text item.lifecycle
    else if k === "status"
    then text item.status
    else if k === "unitId"
    then string_or item.unit_id
    else if k === "region"
    then string_or item.region
    else if k === "symbol"
    then string_or item.symbol
    else if k === "address"
    then string_or item.address
    else if k === "milestone"
    then string_or item.milestone
    else if k === "requiredLevel"
    then string_or item.required_level
    else if k === "size"
    then number_or item.size
    else if k === "source"
    then string_or item.source
    else if k === "attempts"
    then number item.attempts
    else if k === "exhausted"
    then boolean item.exhausted
    else if k === "ready"
    then boolean item.ready
    else if k === "meta"
    then item.meta
    else undefined)

abbrev pub dep_value : DepEdge → Value
dep_value dep = object (λ k.
    if k === "fromId"
    then text dep.from_id
    else if k === "toId"
    then text dep.to_id
    else if k === "kind"
    then text (kind_text dep.kind)
    else undefined)

abbrev pub capability_value : Capability → Value
capability_value c = object (λ k.
    if k === "workItemId"
    then text c.work_item_id
    else if k === "capability"
    then text c.capability
    else undefined)

abbrev pub values : {A : Type 0} → (A → Value) → List A → Values
values f [] = none_left
values f (x ∷ xs) = value_then (f x) (values f xs)

abbrev pub snapshot_value : Snapshot → Value
snapshot_value s = object (λ k.
    if k === "workItems"
    then array (values item_value s.work_items)
    else if k === "deps"
    then array (values dep_value s.deps)
    else if k === "capabilities"
    then array (values capability_value s.capabilities)
    else undefined)

abbrev pub IsObject : Value → Type 0
IsObject (object f) = Unit
IsObject _ = ⊥

pub record IsWellFormedItem (item : WorkItem) : Type 0 where
  pub id : item.id ≢ ""
  pub kind : item.kind ≢ ""
  pub status : item.status ≢ ""
  pub lifecycle : among item.lifecycle lifecycle_vocab ≡ true
  pub meta : IsObject item.meta

-- Both ends of an edge are items of the snapshot.
pub record IsWellFormedDep (ids : List String) (dep : DepEdge) : Type 0 where
  pub from_id : dep.from_id ≢ ""
  pub to_id : dep.to_id ≢ ""
  pub from_item : among dep.from_id ids ≡ true
  pub to_item : among dep.to_id ids ≡ true

pub record IsWellFormedCapability (ids : List String) (c : Capability) : Type 0 where
  pub work_item_id : c.work_item_id ≢ ""
  pub capability : c.capability ≢ ""
  pub item : among c.work_item_id ids ≡ true

pub record IsWellFormed (s : Snapshot) : Type 0 where
  pub work_items : All IsWellFormedItem s.work_items
  pub deps : All (IsWellFormedDep (item_ids s.work_items)) s.deps
  pub capabilities : All (IsWellFormedCapability (item_ids s.work_items)) s.capabilities

-- ===== src/Target/Registry.antt =====
-- src/target/registry.ts: snapshots of the registry. A snapshot that is read is a value of the source's
-- language, and its objects are read by the names of their fields; a check that fails throws.
pub mod Validation
pub mod Accepted
pub mod Restore
pub mod RoundTrip
pub mod WellFormed
pub mod Entries
use decompi.Base.{
  ℕ, suc, Bool, true, false, not, List, [], ◌∷◌, Option, none, some, String, ◌===◌, or_else, any,
  if◌then◌else◌,
}
use decompi.Base.Results.{
  Result, ok, err, ◌>>=◌, ◌>>◌, Value, Values, undefined, boolean, number, text, array, object,
  none_left, value_then,
}
use decompi.Target.WorkItem.{WorkItem, RepoError, empty_object}
use decompi.Target.Deps.{
  DepKind, depends_on, calls, unresolved_calls, abi_helper, DepEdge, Capability,
}

pub record Snapshot : Type 0 where
  pub work_items : List WorkItem
  pub deps : List DepEdge
  pub capabilities : List Capability

-- Where an error is: an entry of one of the lists.
pub data Place : Type 0 where
  work_items_at deps_at capabilities_at : ℕ → Place

pub data SnapshotError : Type 0 where
  not_an_object : SnapshotError
  not_an_array : String → SnapshotError
  entry_not_an_object : Place → SnapshotError
  must_be_string must_be_number must_be_boolean must_be_object must_be_non_empty :
      Place → String → SnapshotError
  bad_kind bad_lifecycle : Place → SnapshotError
  unknown_item : Place → String → SnapshotError
  -- what the insertion of an item throws
  repository : RepoError → SnapshotError

abbrev pub Checked : Type 0 → Type 0
Checked A = Result SnapshotError A

abbrev pub Fields : Type 0
Fields = String → Value

abbrev pub guard : Bool → SnapshotError → Checked (Unit {0})
guard true e = ok tt
guard false e = err e

unfoldable pub string_value : SnapshotError → Value → Checked (Option String)
string_value e undefined = ok none
string_value e (text s) = ok (some s)
string_value e _ = err e

unfoldable pub optional_string : Fields → String → Place → Checked (Option String)
unfolding string_value
optional_string raw field place = string_value (must_be_string place field) (raw field)

unfoldable pub number_value : SnapshotError → Value → Checked (Option ℕ)
number_value e undefined = ok none
number_value e (number n) = ok (some n)
number_value e _ = err e

unfoldable pub optional_number : Fields → String → Place → Checked (Option ℕ)
unfolding number_value
optional_number raw field place = number_value (must_be_number place field) (raw field)

unfoldable pub non_empty : SnapshotError → Option String → Checked String
non_empty e none = err e
non_empty e (some s) = if s === "" then err e else ok s

unfoldable pub required_string : Fields → String → Place → Checked String
unfolding optional_string non_empty
required_string raw field place =
    optional_string raw field place >>= non_empty (must_be_non_empty place field)

unfoldable pub boolean_value : SnapshotError → Bool → Value → Checked Bool
boolean_value e fallback undefined = ok fallback
boolean_value e fallback (boolean b) = ok b
boolean_value e fallback _ = err e

unfoldable pub optional_boolean : Fields → String → Place → Bool → Checked Bool
unfolding boolean_value
optional_boolean raw field place fallback =
    boolean_value (must_be_boolean place field) fallback (raw field)

unfoldable pub meta_value : SnapshotError → Value → Checked Value
meta_value e undefined = ok empty_object
meta_value e (object f) = ok (object f)
meta_value e _ = err e

-- An entry of a list, which has to be an object.
abbrev pub entry : {A : Type 0} → Place → Value → (Fields → Checked A) → Checked A
entry place (object f) check = check f
entry place _ check = err (entry_not_an_object place)

-- The last fields of an item, with what the others gave.
unfoldable pub check_amounts : Place → Fields → WorkItem → Checked WorkItem
unfolding optional_string optional_number optional_boolean meta_value
check_amounts place raw item = do
  size ← optional_number raw "size" place
  source ← optional_string raw "source" place
  attempts ← optional_number raw "attempts" place
  exhausted ← optional_boolean raw "exhausted" place false
  ready ← optional_boolean raw "ready" place false
  meta ← meta_value (must_be_object place "meta") (raw "meta")
  ok (record item {
    size = size;
    source = source;
    attempts = or_else attempts 0;
    exhausted = exhausted;
    ready = ready;
    meta = meta;
  })

unfoldable pub check_columns : Place → Fields → WorkItem → Checked WorkItem
unfolding optional_string
check_columns place raw item = do
  unit_id ← optional_string raw "unitId" place
  region ← optional_string raw "region" place
  symbol ← optional_string raw "symbol" place
  address ← optional_string raw "address" place
  milestone ← optional_string raw "milestone" place
  required_level ← optional_string raw "requiredLevel" place
  check_amounts place raw (record item {
    unit_id = unit_id;
    region = region;
    symbol = symbol;
    address = address;
    milestone = milestone;
    required_level = required_level;
  })

-- An item whose other fields are yet to be read.
abbrev pub item_named : String → String → String → String → WorkItem
item_named id kind lifecycle status = record {
  id = id;
  kind = kind;
  unit_id = none;
  lifecycle = lifecycle;
  status = status;
  region = none;
  symbol = none;
  address = none;
  milestone = none;
  required_level = none;
  size = none;
  source = none;
  attempts = 0;
  exhausted = false;
  ready = false;
  meta = empty_object;
}

unfoldable pub check_item : Place → Fields → Checked WorkItem
unfolding optional_string required_string
check_item place raw = do
  id ← required_string raw "id" place
  kind ← required_string raw "kind" place
  lifecycle ← optional_string raw "lifecycle" place
  status ← required_string raw "status" place
  check_columns place raw (item_named id kind (or_else lifecycle "pending") status)

-- `DEP_KINDS.includes(kind)`, and the kind.
unfoldable pub kind_named : String → Option DepKind
kind_named s =
    if s === "depends_on"
    then some depends_on
    else if s === "calls"
    then some calls
    else if s === "unresolved_calls"
    then some unresolved_calls
    else if s === "abi_helper"
    then some abi_helper
    else none

abbrev pub known_kind : Place → Option DepKind → Checked DepKind
known_kind place none = err (bad_kind place)
known_kind place (some kind) = ok kind

unfoldable pub check_dep : Place → Fields → Checked DepEdge
unfolding required_string kind_named
check_dep place raw = do
  from_id ← required_string raw "fromId" place
  to_id ← required_string raw "toId" place
  name ← required_string raw "kind" place
  kind ← known_kind place (kind_named name)
  ok (record { from_id = from_id; to_id = to_id; kind = kind })

unfoldable pub check_capability : Place → Fields → Checked Capability
unfolding required_string
check_capability place raw = do
  item ← required_string raw "workItemId" place
  capability ← required_string raw "capability" place
  ok (record { work_item_id = item; capability = capability })

-- `entries.map((entry, index) => …)`
unfoldable pub check_entries :
    {A : Type 0} → (ℕ → Place) → (Place → Fields → Checked A) → ℕ → Values → Checked (List A)
check_entries at check index none_left = ok []
check_entries at check index (value_then v vs) =
    let rest = check_entries at check (suc index) vs in
    do x ← entry (at index) v (check (at index)); xs ← rest; ok (x ∷ xs)

abbrev pub entries_of : String → Value → Checked Values
entries_of name (array vs) = ok vs
entries_of name _ = err (not_an_array name)

abbrev pub lifecycle_vocab : List String
lifecycle_vocab =
    "pending" ∷ "claimed" ∷ "active" ∷ "verified" ∷ "accepted" ∷ "rejected"
    ∷ "revalidation_required" ∷ "blocked" ∷ "not_required" ∷ []

abbrev pub among : String → List String → Bool
among s ids = any (λ id. id === s) ids

abbrev pub item_ids : List WorkItem → List String
item_ids [] = []
item_ids (item ∷ items) = item.id ∷ item_ids items

unfoldable pub check_lifecycles : ℕ → List WorkItem → Checked (Unit {0})
check_lifecycles i [] = ok tt
check_lifecycles i (item ∷ items) =
    let rest = check_lifecycles (suc i) items in
    if among item.lifecycle lifecycle_vocab then rest else err (bad_lifecycle (work_items_at i))

unfoldable pub check_ends : List String → ℕ → List DepEdge → Checked (Unit {0})
check_ends ids i [] = ok tt
check_ends ids i (dep ∷ deps) =
    let rest = check_ends ids (suc i) deps in
    if not (among dep.from_id ids)
    then err (unknown_item (deps_at i) "fromId")
    else if not (among dep.to_id ids)
    then err (unknown_item (deps_at i) "toId")
    else rest

unfoldable pub check_owners : List String → ℕ → List Capability → Checked (Unit {0})
check_owners ids i [] = ok tt
check_owners ids i (c ∷ cs) =
    let rest = check_owners ids (suc i) cs in
    if among c.work_item_id ids then rest else err (unknown_item (capabilities_at i) "workItemId")

unfoldable pub check_references : Snapshot → Checked Snapshot
unfolding check_lifecycles check_ends check_owners
check_references s = do
  check_lifecycles 0 s.work_items
  check_ends (item_ids s.work_items) 0 s.deps
  check_owners (item_ids s.work_items) 0 s.capabilities
  ok s

unfoldable pub validate_fields : Fields → Checked Snapshot
unfolding check_entries check_item check_dep check_capability check_references
validate_fields raw = do
  items ← entries_of "workItems" (raw "workItems")
  deps ← entries_of "deps" (raw "deps")
  capabilities ← entries_of "capabilities" (raw "capabilities")
  work_items' ← check_entries work_items_at check_item 0 items
  deps' ← check_entries deps_at check_dep 0 deps
  capabilities' ← check_entries capabilities_at check_capability 0 capabilities
  check_references (record { work_items = work_items'; deps = deps'; capabilities = capabilities' })

unfoldable pub validate_registry_snapshot : Value → Checked Snapshot
unfolding validate_fields
validate_registry_snapshot (object raw) = validate_fields raw
validate_registry_snapshot _ = err not_an_object

-- ===== src/Tests/Snapshots.antt =====
-- Work items and snapshots of src/target on small registries. A text is here the value that it encodes.
use decompi.Base.{
  ne_of_test, ℕ, ◌≡◌, refl, Bool, true, false, List, [], ◌∷◌, Option, none, some, String, ◌===◌,
  str_dec, is_some, if◌then◌else◌, All,
}
use decompi.Base.Results.{ok, err, Value}
use decompi.Core.Store.Transaction.{order_by, put_ordered}
use decompi.Target.WorkItem.{
  WorkItem, WorkItemRow, Patch, get, item_to_row, row_to_work_item, parse_meta, update,
  empty_object,
}
use decompi.Target.WorkItem.Codec.{patched_item, map_option, IsKeyed, Reads, update_lem}
use decompi.Target.Deps.{DepEdge, Capability, EdgeKey, calls, kind_text}
use decompi.Target.Deps.Edges.{has}
use decompi.Target.Registry.{
  Snapshot, unknown_item, deps_at, validate_registry_snapshot, validate_fields, check_entries,
  check_item, check_columns, check_amounts, check_dep, check_capability, check_references,
  check_lifecycles, check_ends, check_owners, optional_string, optional_number, required_string,
  optional_boolean, string_value, number_value, non_empty, boolean_value, meta_value, kind_named,
}
use decompi.Target.Registry.Validation.{validate-IsWellFormed}
use decompi.Target.Registry.WellFormed.{snapshot_value, IsWellFormed}
use decompi.Target.Registry.Accepted.{validate-ok-IsWellFormed}
use decompi.Target.Registry.Restore.{Database, empty_database, import_registry, export_registry}
use decompi.Target.Registry.RoundTrip.{holds_capability, import-export}

abbrev stringify : Value → Value
stringify v = v

abbrev parse : Value → Option Value
parse v = some v

abbrev function_item : String → WorkItem
function_item id = record {
  id = id;
  kind = "function";
  unit_id = some "u";
  lifecycle = "pending";
  status = "NOT_STARTED";
  region = none;
  symbol = none;
  address = some "0x80004000";
  milestone = none;
  required_level = none;
  size = some 12;
  source = none;
  attempts = 0;
  exhausted = false;
  ready = true;
  meta = empty_object;
}

abbrev row : String → WorkItemRow Value
row id = item_to_row stringify parse (function_item id) 1

abbrev rows : List (WorkItemRow Value)
rows = row "g" ∷ row "f" ∷ []

abbrev no_change : Patch
no_change = record {
  id = none;
  kind = none;
  unit_id = none;
  lifecycle = none;
  status = none;
  region = none;
  symbol = none;
  address = none;
  milestone = none;
  required_level = none;
  size = none;
  source = none;
  attempts = none;
  exhausted = none;
  ready = none;
  meta = none;
}

abbrev attempted : Patch
attempted = record no_change { attempts = some 3; exhausted = some true }

rows-IsKeyed : IsKeyed stringify parse rows
unfolding item_to_row str_dec
rows-IsKeyed = ((ne_of_test "f" "g" refl, tt), (tt, tt))

update_lem_example :
    (rows' : List (WorkItemRow Value)) × (n : ℕ) × (update stringify parse 2 "f" attempted rows
      ≡ ok (rows', n))
    × IsKeyed stringify parse rows'
    × (n ≡ (if is_some (get stringify parse "f" rows) then 1 else 0))
    × (get stringify parse "g" rows' ≡ (
        if "g" === "f"
        then map_option (patched_item attempted) (get stringify parse "f" rows)
        else get stringify parse "g" rows))
update_lem_example =
    update_lem stringify parse 2 "f" attempted rows "g" rows-IsKeyed refl (λ v e. cc)

abbrev call : DepEdge
call = record { from_id = "f"; to_id = "g"; kind = calls }

abbrev leaf : Capability
leaf = record { work_item_id = "g"; capability = "leaf" }

abbrev snapshot : Snapshot
snapshot = record {
  work_items = function_item "f" ∷ function_item "g" ∷ [];
  deps = call ∷ [];
  capabilities = leaf ∷ [];
}

snapshot-IsWellFormed : IsWellFormed snapshot
unfolding str_dec
snapshot-IsWellFormed = record {
  work_items = (
    record { id = λ e. cc; kind = λ e. cc; status = λ e. cc; lifecycle = refl; meta = tt },
    (record { id = λ e. cc; kind = λ e. cc; status = λ e. cc; lifecycle = refl; meta = tt }, tt),
  );
  deps = (record { from_id = λ e. cc; to_id = λ e. cc; from_item = refl; to_item = refl }, tt);
  capabilities = (record { work_item_id = λ e. cc; capability = λ e. cc; item = refl }, tt);
}

validate-IsWellFormed_example : validate_registry_snapshot (snapshot_value snapshot) ≡ ok snapshot
validate-IsWellFormed_example = validate-IsWellFormed snapshot snapshot-IsWellFormed

validate-ok-IsWellFormed_example : IsWellFormed snapshot
validate-ok-IsWellFormed_example =
    validate-ok-IsWellFormed (snapshot_value snapshot) snapshot
      (validate-IsWellFormed snapshot snapshot-IsWellFormed)

-- An edge to an item that the snapshot lacks.
test_dangling :
    validate_registry_snapshot (
      snapshot_value
        (record snapshot { deps = record { from_id = "f"; to_id = "h"; kind = calls } ∷ [] }))
    ≡ err (unknown_item (deps_at 0) "toId")
unfolding validate_registry_snapshot validate_fields check_entries check_item check_columns
    check_amounts check_dep check_capability check_references check_lifecycles check_ends
    check_owners optional_string optional_number required_string optional_boolean string_value
    number_value non_empty boolean_value meta_value kind_named kind_text str_dec
test_dangling = refl

abbrev database : Database Value
database = record { work_items = rows; deps = call ∷ []; capabilities = leaf ∷ [] }

-- The order of single letters is enough here.
abbrev before : String → String → Bool
before a b = a === "f"

exported : export_registry stringify parse before database ≡ snapshot
unfolding export_registry order_by put_ordered row_to_work_item item_to_row parse_meta str_dec
exported = refl

exported-IsWellFormed : IsWellFormed (export_registry stringify parse before database)
exported-IsWellFormed = rw exported snapshot-IsWellFormed

exported-Reads :
    All
      (λ (i : WorkItem). Reads stringify parse i.meta)
      (export_registry stringify parse before database).work_items
exported-Reads = rw exported (refl, (refl, tt))

import-export_example :
    (db' : Database Value) × (import_registry stringify parse
        (λ n. n)
        (snapshot_value (export_registry stringify parse before database))
        empty_database
      ≡ (db', ok 2))
    × ((id : String) → get stringify parse id db'.work_items ≡ get stringify parse id rows)
    × ((k : EdgeKey) → has k db'.deps ≡ has k (call ∷ []))
    × ((k : String × String) → holds_capability k db'.capabilities ≡ holds_capability k (leaf ∷ []))
import-export_example =
    import-export stringify parse (λ n. n) before database rows-IsKeyed (tt, tt) (tt, tt)
      exported-IsWellFormed exported-Reads

-- ===== src/Target/Registry/Restore.antt =====
-- Export and import of src/target/registry.ts over the three tables of the registry. The text of `meta` is
-- a parameter, as in Target/WorkItem, and so is the order of texts that ORDER BY goes by.
use decompi.Base.{ℕ, suc, Bool, List, [], ◌∷◌, Option, String, ◌===◌, if◌then◌else◌, map, length}
use decompi.Base.Results.{Result, ok, err, ◌>>=◌, Value}
use decompi.Core.Store.Transaction.{transaction, order_by}
use decompi.Target.WorkItem.{WorkItem, WorkItemRow, RepoError, insert, row_to_work_item}
use decompi.Target.Deps.{DepEdge, Capability, kind_text, add_dep, add_capability}
use decompi.Target.Registry.{Snapshot, repository, Checked, validate_registry_snapshot}

pub record Database (Text : Type 0) : Type 0 where
  pub work_items : List (WorkItemRow Text)
  pub deps : List DepEdge
  pub capabilities : List Capability

abbrev pub empty_database : {Text : Type 0} → Database Text
empty_database = record { work_items = []; deps = []; capabilities = [] }

-- An insertion that throws ends the restore.
abbrev pub from_repository : {A : Type 0} → Result RepoError A → Checked A
from_repository (ok a) = ok a
from_repository (err e) = err (repository e)

unfoldable pub add_deps : List DepEdge → List DepEdge → List DepEdge
unfolding add_dep
add_deps [] deps = deps
add_deps (d ∷ ds) deps = add_deps ds (add_dep d.from_id d.to_id d.kind deps).0

unfoldable pub add_capabilities : List Capability → List Capability → List Capability
unfolding add_capability
add_capabilities [] cs = cs
add_capabilities (c ∷ more) cs =
    add_capabilities more (add_capability c.work_item_id c.capability cs).0

-- `ORDER BY from_id, to_id, kind` and its like, where `before` is the order of texts.
abbrev pub dep_before : (String → String → Bool) → DepEdge → DepEdge → Bool
dep_before before a b =
    if a.from_id === b.from_id
    then if a.to_id === b.to_id
      then before (kind_text a.kind) (kind_text b.kind)
      else before a.to_id b.to_id
    else before a.from_id b.from_id

abbrev pub capability_before : (String → String → Bool) → Capability → Capability → Bool
capability_before before a b =
    if a.work_item_id === b.work_item_id
    then before a.capability b.capability
    else before a.work_item_id b.work_item_id

module _ {Text : Type 0} (stringify : Value → Text) (parse : Text → Option Value) where
  -- `clock` gives the time of each insertion.
  unfoldable pub insert_items :
      (ℕ → ℕ) → ℕ → List WorkItem → List (WorkItemRow Text) → Checked (List (WorkItemRow Text))
  unfolding insert
  insert_items clock n [] rows = ok rows
  insert_items clock n (item ∷ items) rows =
      from_repository (insert stringify parse (clock n) item rows) >>= λ rows'.
      insert_items clock (suc n) items rows'

  -- The callback of the import, and the number of items that it inserts.
  unfoldable pub restore : (ℕ → ℕ) → Snapshot → Database Text → Checked (Database Text × ℕ)
  unfolding insert_items add_deps add_capabilities
  restore clock s db = insert_items clock 0 s.work_items db.work_items >>= λ rows. ok (
    record {
      work_items = rows;
      deps = add_deps s.deps db.deps;
      capabilities = add_capabilities s.capabilities db.capabilities;
    },
    length s.work_items,
  )

  unfoldable pub import_registry : (ℕ → ℕ) → Value → Database Text → Database Text × Checked ℕ
  unfolding restore transaction
  import_registry clock input db = elim (validate_registry_snapshot input) [
    | err e ↦ (db, err e)
    | ok s ↦ transaction (restore clock s) db
  ]

  unfoldable pub export_registry : (String → String → Bool) → Database Text → Snapshot
  unfolding order_by row_to_work_item
  export_registry before db = record {
    work_items =
        map (row_to_work_item stringify parse)
          (order_by (λ (a b : WorkItemRow Text). before a.id b.id) db.work_items);
    deps = order_by (dep_before before) db.deps;
    capabilities = order_by (capability_before before) db.capabilities;
  }

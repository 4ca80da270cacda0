-- ===== src/Target/Registry/RoundTrip.antt =====
-- What an import of src/target/registry.ts leaves behind, and an export that is imported again.
use mathlib.Core.Path.{subst}
use mathlib.Core.Logic.{if_pos, if_neg}
use decompi.Base.{
  ap, ◌∙◌, sym, ℕ, suc, ◌≡◌, refl, Bool, true, false, ◌||◌, List, [], ◌∷◌, Option, none, some,
  String, is_some, arith, All, str_dec, map, length,
}
use decompi.Base.Results.{ok, Value}
use decompi.Core.Store.{find, insert_ignore}
use decompi.Core.Store.Keys.{
  Absent, Unique, find-insert_ignore_self, find-insert_ignore_ne, insert_ignore-Unique,
  find-eq-none,
}
use decompi.Core.Store.Transaction.{transaction, order_by}
use decompi.Core.Store.Ordering.{length-order_by, order_by-Unique, find-order_by}
use decompi.Target.WorkItem.{
  WorkItem, WorkItemRow, id_of, row_at, insert, get, item_to_row, row_to_work_item,
}
use decompi.Target.WorkItem.Codec.{Reads, map_option, row_to_work_item-item_to_row, get-row_at}
use decompi.Target.Deps.{
  DepEdge, Capability, EdgeKey, edge_key, edge_dec, capability_key, capability_dec, add_dep,
  add_capability,
}
use decompi.Target.Deps.Edges.{has}
use decompi.Target.Registry.{Snapshot}
use decompi.Target.Registry.Validation.{validate-IsWellFormed}
use decompi.Target.Registry.WellFormed.{snapshot_value, IsWellFormed}
use decompi.Target.Registry.Restore.{
  Database, empty_database, add_deps, add_capabilities, insert_items, restore, import_registry,
  export_registry, dep_before, capability_before,
}

-- Rows inserted one after another.
module _ {A K : Type 0} (dec : Discrete K) (key : A → K) where
  insert_all : List A → List A → List A
  insert_all [] rows = rows
  insert_all (r ∷ rs) rows = insert_all rs (insert_ignore dec key r rows).0

  insert_ignore-has :
      (k : K) (r : A) (rows : List A)
      → is_some (find dec key k (insert_ignore dec key r rows).0)
        ≡ is_some (find dec key k (r ∷ rows))
  unfolding find
  insert_ignore-has k r rows = elim (dec (key r) k) [
    | yes e ↦
        subst
          (λ j.
            is_some (find dec key j (insert_ignore dec key r rows).0)
            ≡ is_some (find dec key j (r ∷ rows)))
          e
          (ap is_some (find-insert_ignore_self key dec r rows)
            ∙ sym (
                ap is_some
                  (if_pos (dec (key r) (key r)) refl (some r) (find dec key (key r) rows))))
    | no n ↦
        ap is_some (find-insert_ignore_ne key dec k r rows n)
        ∙ sym (ap is_some (if_neg (dec (key r) k) n (some r) (find dec key k rows)))
  ]

  insert_all-has :
      (k : K) (rs rows : List A)
      → is_some (find dec key k (insert_all rs rows))
        ≡ (is_some (find dec key k rs) || is_some (find dec key k rows))
  unfolding insert_all find
  insert_all-has k [] rows = refl
  insert_all-has k (r ∷ rs) rows =
      ground
        (arith, insert_all-has k rs (insert_ignore dec key r rows).0, insert_ignore-has k r rows)

  insert_all-Unique : (rs rows : List A) → Unique key rows → Unique key (insert_all rs rows)
  unfolding insert_all
  insert_all-Unique [] rows u = u
  insert_all-Unique (r ∷ rs) rows u =
      insert_all-Unique rs (insert_ignore dec key r rows).0 (insert_ignore-Unique key dec r rows u)

-- Rows that are ordered and inserted into no others.
insert_all-same :
    {A K : Type 0} (dec : Discrete K) (key : A → K) (before : A → A → Bool) (k : K) (rows : List A)
    → Unique key rows
    → is_some (find dec key k (insert_all dec key (order_by before rows) []))
      ≡ is_some (find dec key k rows)
unfolding find
insert_all-same dec key before k rows u =
    insert_all-has dec key k (order_by before rows) []
    ∙ (or_false (is_some (find dec key k (order_by before rows)))
        ∙ ap is_some (find-order_by key before dec k rows u))
  where
    or_false : (b : Bool) → (b || false) ≡ b
    or_false true = refl
    or_false false = refl

add_deps-eq : (ds deps : List DepEdge) → add_deps ds deps ≡ insert_all edge_dec edge_key ds deps
unfolding add_deps insert_all
add_deps-eq [] deps = refl
add_deps-eq (d ∷ ds) deps = add_deps-eq ds (add_dep d.from_id d.to_id d.kind deps).0

add_capabilities-eq :
    (more cs : List Capability)
    → add_capabilities more cs ≡ insert_all capability_dec capability_key more cs
unfolding add_capabilities insert_all
add_capabilities-eq [] cs = refl
add_capabilities-eq (c ∷ more) cs =
    add_capabilities-eq more (add_capability c.work_item_id c.capability cs).0

abbrev pub holds_capability : String × String → List Capability → Bool
holds_capability k cs = is_some (find capability_dec capability_key k cs)

abbrev pub item_at : String → List WorkItem → Option WorkItem
item_at = find str_dec (λ (item : WorkItem). item.id)

-- `a`, else `b`.
abbrev either : {A : Type 0} → Option A → Option A → Option A
either none b = b
either (some a) b = some a

module _ {Text : Type 0} (stringify : Value → Text) (parse : Text → Option Value) where
  -- No item has the id of a row.
  abbrev AreNew : List WorkItem → List (WorkItemRow Text) → Type 0
  AreNew items rows = All (λ item. Absent id_of item.id rows) items

  insert-new :
      (now : ℕ) (item : WorkItem) (rows : List (WorkItemRow Text))
      → Absent id_of item.id rows
      → insert stringify parse now item rows ≡ ok (item_to_row stringify parse item now ∷ rows)
  unfolding insert insert_ignore item_to_row
  insert-new now item rows absent =
      let none_there = find-eq-none id_of str_dec item.id rows absent in ground (arith, none_there)

  get-cons :
      (id : String) (now : ℕ) (item : WorkItem) (rows : List (WorkItemRow Text))
      → Reads stringify parse item.meta
      → get stringify parse id (item_to_row stringify parse item now ∷ rows)
        ≡ either (item_at id (item ∷ [])) (get stringify parse id rows)
  unfolding find item_to_row
  get-cons id now item rows reads =
      let row = item_to_row stringify parse item now in
      let same = row_to_work_item-item_to_row stringify parse item now reads in
      elim (str_dec item.id id) [
        | yes e ↦
            get-row_at stringify parse id (row ∷ rows)
            ∙ rw
                (
                  if_pos (str_dec item.id id) e (some row) (row_at id rows),
                  if_pos (str_dec item.id id) e (some item) none,
                )
                (ap some same)
        | no n ↦
            get-row_at stringify parse id (row ∷ rows)
            ∙ rw
                (
                  if_neg (str_dec item.id id) n (some row) (row_at id rows),
                  if_neg (str_dec item.id id) n (some item) none,
                )
                (sym (get-row_at stringify parse id rows))
      ]

  still_new :
      (now : ℕ) (item : WorkItem) (items : List WorkItem) (rows : List (WorkItemRow Text))
      → Absent (λ (i : WorkItem). i.id) item.id items
      → AreNew items rows
      → AreNew items (item_to_row stringify parse item now ∷ rows)
  unfolding item_to_row
  still_new now item [] rows absent new = tt
  still_new now item (i ∷ items) rows absent new =
      (((λ e. absent.0 (sym e)), new.0), still_new now item items rows absent.1 new.1)

  -- Items of distinct new ids are all inserted, and are read back.
  insert_items-new :
      (clock : ℕ → ℕ) (n : ℕ) (items : List WorkItem) (rows : List (WorkItemRow Text))
      → Unique (λ (i : WorkItem). i.id) items
      → All (λ (i : WorkItem). Reads stringify parse i.meta) items
      → AreNew items rows
      → (rows' : List (WorkItemRow Text)) × (insert_items stringify parse clock n items rows
          ≡ ok rows')
        × ((id : String)
            → get stringify parse id rows'
              ≡ either (item_at id items) (get stringify parse id rows))
  unfolding insert_items find
  insert_items-new clock n [] rows u reads new = (rows, refl, λ id. refl)
  insert_items-new clock n (item ∷ items) rows u reads new =
      let row = item_to_row stringify parse item (clock n) in
      let (rows', there, seen) =
        insert_items-new clock (suc n) items (row ∷ rows) u.1 reads.1
          (still_new (clock n) item items rows u.0 new.1) in
      (
        rows',
        rw (insert_items, insert-new (clock n) item rows new.0) there,
        λ id.
            seen id ∙ first_found id (str_dec item.id id) (get-cons id (clock n) item rows reads.0),
      )
    where
      first_found :
          (id : String)
          → Dec (item.id ≡ id)
          → get stringify parse id (item_to_row stringify parse item (clock n) ∷ rows)
            ≡ either (item_at id (item ∷ [])) (get stringify parse id rows)
          → either
              (item_at id items)
              (get stringify parse id (item_to_row stringify parse item (clock n) ∷ rows))
            ≡ either (item_at id (item ∷ items)) (get stringify parse id rows)
      first_found id (yes e) head =
          let gone =
            subst (λ j. item_at j items ≡ none) e
              (find-eq-none (λ (i : WorkItem). i.id) str_dec item.id items u.0) in
          ground (arith, gone, head, e)
      first_found id (no n) head = ground (arith, head, n)

  map-Absent :
      (id : String) (rows : List (WorkItemRow Text))
      → Absent id_of id rows
      → Absent (λ (i : WorkItem). i.id) id (map (row_to_work_item stringify parse) rows)
  unfolding row_to_work_item
  map-Absent id [] h = tt
  map-Absent id (r ∷ rows) h = (h.0, map-Absent id rows h.1)

  map-Unique :
      (rows : List (WorkItemRow Text))
      → Unique id_of rows
      → Unique (λ (i : WorkItem). i.id) (map (row_to_work_item stringify parse) rows)
  unfolding row_to_work_item
  map-Unique [] u = tt
  map-Unique (r ∷ rows) u = (map-Absent r.id rows u.0, map-Unique rows u.1)

  item_at-map :
      (id : String) (rows : List (WorkItemRow Text))
      → item_at id (map (row_to_work_item stringify parse) rows)
        ≡ map_option (row_to_work_item stringify parse) (row_at id rows)
  unfolding find row_to_work_item
  item_at-map id [] = refl
  item_at-map id (r ∷ rows) = elim (str_dec r.id id) [
    | yes e ↦ ground (arith, e)
    | no n ↦ ground (arith, n, item_at-map id rows)
  ]

  length-map :
      (rows : List (WorkItemRow Text))
      → length (map (row_to_work_item stringify parse) rows) ≡ length rows
  length-map [] = refl
  length-map (r ∷ rows) = ap suc (length-map rows)

  import-eq :
      (clock : ℕ → ℕ) (s : Snapshot) (rows : List (WorkItemRow Text))
      → IsWellFormed s
      → insert_items stringify parse clock 0 s.work_items [] ≡ ok rows
      → import_registry stringify parse clock (snapshot_value s) empty_database ≡ (
        record {
          work_items = rows;
          deps = add_deps s.deps [];
          capabilities = add_capabilities s.capabilities [];
        },
        ok (length s.work_items),
      )
  unfolding import_registry restore transaction
  import-eq clock s rows well there =
      rw (import_registry, validate-IsWellFormed s well, transaction, restore, there) refl

  get-items :
      (id : String) (order : WorkItemRow Text → WorkItemRow Text → Bool)
      (rows : List (WorkItemRow Text))
      → Unique id_of rows
      → either
          (item_at id (map (row_to_work_item stringify parse) (order_by order rows)))
          (get stringify parse id [])
        ≡ get stringify parse id rows
  unfolding find
  get-items id order rows keyed =
      let nothing = get-row_at stringify parse id [] in
      let same =
        item_at-map id (order_by order rows)
        ∙ ap (map_option (row_to_work_item stringify parse))
            (find-order_by id_of order str_dec id rows keyed)
        ∙ sym (get-row_at stringify parse id rows) in
      rw (nothing, same) (either-none (get stringify parse id rows))
    where
      either-none : (o : Option WorkItem) → either o none ≡ o
      either-none none = refl
      either-none (some i) = refl

  -- A registry with distinct keys, of which the export is well formed and every `meta` is read back from
  -- its text, is imported into an empty one with no error: the count is that of its items, every id has
  -- the same item or none, and the same edges and capabilities are there.
  pub import-export :
      (clock : ℕ → ℕ) (before : String → String → Bool) (db : Database Text)
      → Unique id_of db.work_items
      → Unique edge_key db.deps
      → Unique capability_key db.capabilities
      → IsWellFormed (export_registry stringify parse before db)
      → All
          (λ (i : WorkItem). Reads stringify parse i.meta)
          (export_registry stringify parse before db).work_items
      → (db' : Database Text) × (import_registry stringify parse clock
            (snapshot_value (export_registry stringify parse before db))
            empty_database
          ≡ (db', ok (length db.work_items)))
        × ((id : String)
            → get stringify parse id db'.work_items ≡ get stringify parse id db.work_items)
        × ((k : EdgeKey) → has k db'.deps ≡ has k db.deps)
        × ((k : String × String)
            → holds_capability k db'.capabilities ≡ holds_capability k db.capabilities)
  unfolding export_registry
  import-export clock before db keyed edges owned well reads =
      let s = export_registry stringify parse before db in
      let order = λ (a b : WorkItemRow Text). before a.id b.id in
      let sorted = order_by order db.work_items in
      let (rows, there, found) =
        insert_items-new clock 0 s.work_items []
          (map-Unique sorted (order_by-Unique id_of order db.work_items keyed)) reads
          (all_new s.work_items) in
      let count = length-map sorted ∙ length-order_by order db.work_items in
      let after : Database Text = record {
        work_items = rows;
        deps = add_deps s.deps [];
        capabilities = add_capabilities s.capabilities [];
      } in
      (
        after,
        import-eq clock s rows well there ∙ ap (λ n. (after, ok n)) count,
        λ id. found id ∙ get-items id order db.work_items keyed,
        λ k.
            ap (has k) (add_deps-eq s.deps [])
            ∙ insert_all-same edge_dec edge_key (dep_before before) k db.deps edges,
        λ k.
            ap (holds_capability k) (add_capabilities-eq s.capabilities [])
            ∙ insert_all-same capability_dec capability_key (capability_before before) k
                db.capabilities owned,
      )
    where
      all_new : (items : List WorkItem) → AreNew items []
      all_new [] = tt
      all_new (i ∷ items) = (tt, all_new items)

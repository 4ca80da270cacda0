-- ===== src/Target/WorkItem/Codec.antt =====
-- Work items of src/target/work-item.ts as a reader sees them: what is stored is read back, and an update
-- changes the fields that it is given.
use decompi.Base.{
  ap, ◌∙◌, sym, ℕ, ◌≡◌, refl, ◌≢◌, Bool, true, false, List, [], ◌∷◌, Option, none, some, String,
  ◌===◌, or_else, is_some, if◌then◌else◌, str_dec, arith,
}
use decompi.Base.Results.{ok, Value}
use decompi.Core.Store.{query, update_where, find}
use decompi.Core.Store.Keys.{
  Unique, update_where-Unique, find-update_where, find-key, updated, fits,
}
use decompi.Core.Store.Counts.{update_where-count}
use decompi.Target.WorkItem.{
  WorkItem, WorkItemRow, Patch, flag, flag_or, text_or, empty_object, truthy, patched, id_of,
  row_at, item_to_row, parse_meta, row_to_work_item, get, patch_row, update,
}

-- The item that a patch makes of an item.
abbrev pub patched_item : Patch → WorkItem → WorkItem
patched_item p item = record item {
  kind = or_else p.kind item.kind;
  unit_id = patched p.unit_id item.unit_id;
  lifecycle = or_else p.lifecycle item.lifecycle;
  status = or_else p.status item.status;
  region = patched p.region item.region;
  symbol = patched p.symbol item.symbol;
  address = patched p.address item.address;
  milestone = patched p.milestone item.milestone;
  required_level = patched p.required_level item.required_level;
  size = patched p.size item.size;
  source = patched p.source item.source;
  attempts = or_else p.attempts item.attempts;
  exhausted = or_else p.exhausted item.exhausted;
  ready = or_else p.ready item.ready;
  meta = or_else p.meta item.meta;
}

truthy-flag : (b : Bool) → truthy (flag b) ≡ b
truthy-flag true = refl
truthy-flag false = refl

truthy-flag_or : (o : Option Bool) (n : ℕ) → truthy (flag_or o n) ≡ or_else o (truthy n)
truthy-flag_or none n = refl
truthy-flag_or (some b) n = truthy-flag b

abbrev pub map_option : {A B : Type 0} → (A → B) → Option A → Option B
map_option f none = none
map_option f (some a) = some (f a)

module _ {Text : Type 0} (stringify : Value → Text) (parse : Text → Option Value) where
  -- The text of a value is read back.
  abbrev pub Reads : Value → Type 0
  Reads v = parse (stringify v) ≡ some v

  abbrev pub IsKeyed : List (WorkItemRow Text) → Type 0
  IsKeyed = Unique id_of

  pub row_to_work_item-item_to_row :
      (item : WorkItem) (now : ℕ)
      → Reads item.meta
      → row_to_work_item stringify parse (item_to_row stringify parse item now) ≡ item
  unfolding row_to_work_item item_to_row parse_meta
  row_to_work_item-item_to_row item now reads = λ i. record item {
    exhausted = truthy-flag item.exhausted i;
    ready = truthy-flag item.ready i;
    meta = or_else (reads i) empty_object;
  }

  pub get-row_at :
      (id : String) (rows : List (WorkItemRow Text))
      → get stringify parse id rows ≡ map_option (row_to_work_item stringify parse) (row_at id rows)
  unfolding get query find
  get-row_at id [] = refl
  get-row_at id (r ∷ rows) = elim (str_dec r.id id) [
    | yes e ↦ ground (arith, e)
    | no n ↦ ground (arith, n, get-row_at id rows)
  ]

  meta-text_or :
      (o : Option Value) (old : Text)
      → ((v : Value) → o ≡ some v → Reads v)
      → or_else (parse (text_or stringify parse o old)) empty_object
        ≡ or_else o (or_else (parse old) empty_object)
  meta-text_or none old reads = refl
  meta-text_or (some v) old reads = ap (λ r. or_else r empty_object) (reads v refl)

  row_to_work_item-patch_row :
      (now : ℕ) (p : Patch) (r : WorkItemRow Text)
      → ((v : Value) → p.meta ≡ some v → Reads v)
      → row_to_work_item stringify parse (patch_row stringify parse now p r)
        ≡ patched_item p (row_to_work_item stringify parse r)
  unfolding row_to_work_item patch_row parse_meta
  row_to_work_item-patch_row now p r reads = λ i.
      record (patched_item p (row_to_work_item stringify parse r)) {
        exhausted = truthy-flag_or p.exhausted r.exhausted i;
        ready = truthy-flag_or p.ready r.ready i;
        meta = meta-text_or p.meta r.meta reads i;
      }

  abbrev has_id : String → WorkItemRow Text → Bool
  has_id id r = r.id === id

  fits-is_some :
      (id : String) (o : Option (WorkItemRow Text))
      → ((r : WorkItemRow Text) → o ≡ some r → r.id ≡ id)
      → fits (has_id id) o ≡ is_some (map_option (row_to_work_item stringify parse) o)
  fits-is_some id none at = refl
  fits-is_some id (some r) at = ground (arith, at r refl)

  module _ (now : ℕ) (id : String) (p : Patch)
      (reads : (v : Value) → p.meta ≡ some v → Reads v) where
    updated-hit :
        (o : Option (WorkItemRow Text))
        → ((r : WorkItemRow Text) → o ≡ some r → r.id ≡ id)
        → map_option
            (row_to_work_item stringify parse)
            (updated (has_id id) (patch_row stringify parse now p) o)
          ≡ map_option (patched_item p) (map_option (row_to_work_item stringify parse) o)
    updated-hit none at = refl
    updated-hit (some r) at =
        let hit : (r.id === id) ≡ true = ground (arith, at r refl) in
        rw hit (ap some (row_to_work_item-patch_row now p r reads))

    updated-miss :
        (o : Option (WorkItemRow Text))
        → ((r : WorkItemRow Text) → o ≡ some r → r.id ≢ id)
        → updated (has_id id) (patch_row stringify parse now p) o ≡ o
    updated-miss none at = refl
    updated-miss (some r) at = ground (arith, at r refl)

    get-update :
        (rows : List (WorkItemRow Text)) (other : String)
        → get stringify parse other
            (update_where (has_id id) (patch_row stringify parse now p) rows).0
          ≡ (if other === id
              then map_option (patched_item p) (get stringify parse id rows)
              else get stringify parse other rows)
    unfolding patch_row
    get-update rows other =
        let f = patch_row stringify parse now p in
        let seen = row_to_work_item stringify parse in
        let found = find-update_where id_of str_dec other (has_id id) f (λ r. refl) rows in
        let key = find-key id_of str_dec other rows in
        get-row_at other (update_where (has_id id) f rows).0
        ∙ (ap (map_option seen) found ∙ elim (str_dec other id) [
          | yes e ↦
              let same : (other === id) ≡ true = ground (arith, e) in
              rw same (
                updated-hit (row_at other rows) (λ r h. key r h ∙ e)
                ∙ ap (map_option (patched_item p))
                    (ap (λ k. map_option seen (row_at k rows)) e ∙ sym (get-row_at id rows)))
          | no n ↦
              let apart : (other === id) ≡ false = ground (arith, n) in
              rw apart (
                ap (map_option seen)
                  (updated-miss (row_at other rows) (λ r h q. n (sym (key r h) ∙ q)))
                ∙ sym (get-row_at other rows))
        ])

  -- Where the rows have distinct ids, the patch leaves the id alone and the text of its `meta` is read
  -- back, an update returns with distinct ids: it changes one row where there is one of the id, whose item
  -- then has the fields of the patch and is otherwise as it was, and no other item.
  pub update_lem :
      (now : ℕ) (id : String) (p : Patch) (rows : List (WorkItemRow Text)) (other : String)
      → IsKeyed rows
      → p.id ≡ none
      → ((v : Value) → p.meta ≡ some v → Reads v)
      → (rows' : List (WorkItemRow Text)) × (n : ℕ) × (update stringify parse now id p rows
          ≡ ok (rows', n))
        × IsKeyed rows'
        × (n ≡ (if is_some (get stringify parse id rows) then 1 else 0))
        × (get stringify parse other rows' ≡ (
            if other === id
            then map_option (patched_item p) (get stringify parse id rows)
            else get stringify parse other rows))
  unfolding update
  update_lem now id p rows other keyed may reads =
      let f = patch_row stringify parse now p in
      let after = update_where (has_id id) f rows in
      (
        after.0,
        after.1,
        ground (arith, may),
        update_where-Unique id_of (has_id id) f (λ r. refl) rows keyed,
        update_where-count id_of id (has_id id) (λ r h. ground (arith, h)) str_dec f rows keyed
            ∙ ap (λ b. if b then 1 else 0)
                (fits-is_some id (row_at id rows) (find-key id_of str_dec id rows)
                  ∙ ap is_some (sym (get-row_at id rows))),
        get-update now id p reads rows other,
      )

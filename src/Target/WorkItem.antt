-- ===== src/Target/WorkItem.antt =====
-- src/target/work-item.ts: work items as rows of `work_items`. The encoding of `meta` as a text and its
-- decoding are parameters, over a type of texts.
pub mod Codec
use decompi.Base.{
  ℕ, Bool, not, List, [], ◌∷◌, Option, none, some, String, ◌===◌, ◌==◌, or_else, is_some,
  if◌then◌else◌, str_dec,
}
use decompi.Base.Results.{Result, ok, err, Value, object, undefined}
use decompi.Core.Store.{query, update_where, find, insert_ignore}

pub record WorkItem : Type 0 where
  pub id : String
  pub kind : String
  pub unit_id : Option String
  pub lifecycle : String
  pub status : String
  pub region : Option String
  pub symbol : Option String
  pub address : Option String
  pub milestone : Option String
  pub required_level : Option String
  pub size : Option ℕ
  pub source : Option String
  pub attempts : ℕ
  pub exhausted : Bool
  pub ready : Bool
  pub meta : Value

-- A row of `work_items`; NULL is `none`.
pub record WorkItemRow (Text : Type 0) : Type 0 where
  pub id : String
  pub kind : String
  pub unit_id : Option String
  pub lifecycle : String
  pub status : String
  pub region : Option String
  pub symbol : Option String
  pub address : Option String
  pub milestone : Option String
  pub required_level : Option String
  pub size : Option ℕ
  pub source : Option String
  pub attempts : ℕ
  pub exhausted : ℕ
  pub ready : ℕ
  pub meta : Text
  pub updated_at : ℕ

-- `Partial<WorkItem>`
pub record Patch : Type 0 where
  pub id : Option String
  pub kind : Option String
  pub unit_id : Option String
  pub lifecycle : Option String
  pub status : Option String
  pub region : Option String
  pub symbol : Option String
  pub address : Option String
  pub milestone : Option String
  pub required_level : Option String
  pub size : Option ℕ
  pub source : Option String
  pub attempts : Option ℕ
  pub exhausted : Option Bool
  pub ready : Option Bool
  pub meta : Option Value

pub data RepoError : Type 0 where
  -- a second row of one primary key
  duplicate_id : RepoError
  immutable_id : RepoError

abbrev pub flag : Bool → ℕ
flag b = if b then 1 else 0

abbrev pub flag_or : Option Bool → ℕ → ℕ
flag_or none n = n
flag_or (some b) n = flag b

-- `Boolean(n)`
abbrev pub truthy : ℕ → Bool
truthy n = not (n == 0)

-- `??` on a column that may be absent from a patch
abbrev pub patched : {A : Type 0} → Option A → Option A → Option A
patched none old = old
patched (some v) old = some v

abbrev pub empty_object : Value
empty_object = object (λ k. undefined)

module _ {Text : Type 0} where
  abbrev pub id_of : WorkItemRow Text → String
  id_of r = r.id

  abbrev pub row_at : String → List (WorkItemRow Text) → Option (WorkItemRow Text)
  row_at = find str_dec id_of

-- `JSON.stringify` and `JSON.parse`, `none` where it throws.
module _ {Text : Type 0} (stringify : Value → Text) (parse : Text → Option Value) where
  unfoldable pub item_to_row : WorkItem → ℕ → WorkItemRow Text
  item_to_row item updated_at = record {
    id = item.id;
    kind = item.kind;
    unit_id = item.unit_id;
    lifecycle = item.lifecycle;
    status = item.status;
    region = item.region;
    symbol = item.symbol;
    address = item.address;
    milestone = item.milestone;
    required_level = item.required_level;
    size = item.size;
    source = item.source;
    attempts = item.attempts;
    exhausted = flag item.exhausted;
    ready = flag item.ready;
    meta = stringify item.meta;
    updated_at = updated_at;
  }

  unfoldable pub parse_meta : Text → Value
  parse_meta raw = or_else (parse raw) empty_object

  unfoldable pub row_to_work_item : WorkItemRow Text → WorkItem
  unfolding parse_meta
  row_to_work_item row = record {
    id = row.id;
    kind = row.kind;
    unit_id = row.unit_id;
    lifecycle = row.lifecycle;
    status = row.status;
    region = row.region;
    symbol = row.symbol;
    address = row.address;
    milestone = row.milestone;
    required_level = row.required_level;
    size = row.size;
    source = row.source;
    attempts = row.attempts;
    exhausted = truthy row.exhausted;
    ready = truthy row.ready;
    meta = parse_meta row.meta;
  }

  -- A duplicate id throws.
  unfoldable pub insert :
      ℕ → WorkItem → List (WorkItemRow Text) → Result RepoError (List (WorkItemRow Text))
  unfolding item_to_row
  insert now item rows =
      let (rows', inserted) = insert_ignore str_dec id_of (item_to_row item now) rows in
      if inserted then ok rows' else err duplicate_id

  unfoldable pub get : String → List (WorkItemRow Text) → Option WorkItem
  unfolding row_to_work_item
  get id rows = elim (query (λ r. r.id === id) rows) [
    | [] ↦ none
    | r ∷ _ ↦ some (row_to_work_item r)
  ]

  abbrev pub text_or : Option Value → Text → Text
  text_or none old = old
  text_or (some v) old = stringify v

  -- The columns of the fields that the patch has, and the time of the update.
  unfoldable pub patch_row : ℕ → Patch → WorkItemRow Text → WorkItemRow Text
  patch_row now p r = record r {
    kind = or_else p.kind r.kind;
    unit_id = patched p.unit_id r.unit_id;
    lifecycle = or_else p.lifecycle r.lifecycle;
    status = or_else p.status r.status;
    region = patched p.region r.region;
    symbol = patched p.symbol r.symbol;
    address = patched p.address r.address;
    milestone = patched p.milestone r.milestone;
    required_level = patched p.required_level r.required_level;
    size = patched p.size r.size;
    source = patched p.source r.source;
    attempts = or_else p.attempts r.attempts;
    exhausted = flag_or p.exhausted r.exhausted;
    ready = flag_or p.ready r.ready;
    meta = text_or p.meta r.meta;
    updated_at = now;
  }

  -- The rows after, and the number of rows changed.
  unfoldable pub update :
      ℕ → String → Patch → List (WorkItemRow Text) → Result RepoError (List (WorkItemRow Text) × ℕ)
  unfolding patch_row
  update now id p rows =
      if is_some p.id
      then err immutable_id
      else ok (update_where (λ r. r.id === id) (patch_row now p) rows)

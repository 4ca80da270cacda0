-- ===== src/Target/Selector.antt =====
-- src/target/selector.ts, with `Selector` of src/types.ts: a declarative selection compiled to one
-- parameterised SELECT over `work_items`. The SQL text is data here, a constructor for each form of
-- condition; `holds` says when a row meets one. `Row` has the columns that conditions read, NULL as
-- `none`. The meta operations stay what the source hands on: values of an abstract type `MetaOp`.
pub mod Meaning
pub mod Select
pub mod Paging
use decompi.Base.{
  ℕ, zero, suc, ◌+◌, ◌*◌, Bool, true, false, not, ◌&&◌, ◌||◌, List, [], ◌∷◌, ◌++◌, Option, none,
  some, String, or_else, any, ◌===◌, leb, ◌==◌, if◌then◌else◌, length, take, drop, map,
}
use decompi.Core.Store.{query}

pub data TextColumn : Type 0 where
  id kind unit_id lifecycle status region symbol address milestone required_level : TextColumn

pub data NumberColumn : Type 0 where
  size attempts ready exhausted : NumberColumn

pub record Row : Type 0 where
  pub text : TextColumn → Option String
  pub number : NumberColumn → Option ℕ

pub record Range : Type 0 where
  pub min : Option ℕ
  pub max : Option ℕ

pub record Filter (MetaOp : Type 0) : Type 0 where
  pub status : Option (List String)
  pub lifecycle : Option (List String)
  pub kind : Option (List String)
  pub ids : Option (List String)
  pub unit : Option (List String)
  pub region : Option (List String)
  pub symbol : Option String
  pub address : Option String
  pub milestone : Option (List String)
  pub required_level : Option (List String)
  pub ready : Option Bool
  pub exhausted : Option Bool
  pub attempts : Option Range
  pub size : Option Range
  pub meta : Option (List MetaOp)

pub data SortColumn : Type 0 where
  by_size by_attempts by_unit by_region by_updated_at by_id : SortColumn

pub data SortDir : Type 0 where
  asc desc : SortDir

pub record Selector (MetaOp : Type 0) : Type 0 where
  pub filter : Option (Filter MetaOp)
  pub sort : List (SortColumn × SortDir)
  pub limit : Option ℕ

-- The conditions of a WHERE clause.
pub data Clause : Type 0 where
  -- `column IN (?, …)`
  in_list : TextColumn → List String → Clause
  -- `column = ?`
  text_is : TextColumn → String → Clause
  -- `column = 0 or 1`
  flag_is : NumberColumn → Bool → Clause
  at_least at_most : NumberColumn → ℕ → Clause

unfoldable pub in_clause : TextColumn → List String → List Clause
in_clause column [] = []
in_clause column (v ∷ vs) = in_list column (v ∷ vs) ∷ []

abbrev pub eq_clause : TextColumn → Option String → List Clause
eq_clause column none = []
eq_clause column (some v) = text_is column v ∷ []

abbrev pub bool_clause : NumberColumn → Option Bool → List Clause
bool_clause column none = []
bool_clause column (some b) = flag_is column b ∷ []

abbrev bound : (ℕ → Clause) → Option ℕ → List Clause
bound c none = []
bound c (some n) = c n ∷ []

pub range_clause : NumberColumn → Option Range → List Clause
range_clause column none = []
range_clause column (some r) = bound (at_least column) r.min ++ bound (at_most column) r.max

pub record CompiledSelector (MetaOp : Type 0) : Type 0 where
  pub conditions : List Clause
  pub order : List (SortColumn × SortDir)
  pub limit : Option ℕ
  pub offset : Option ℕ
  pub meta_filters : List MetaOp

-- With a LIMIT the order is made total by the primary key.
abbrev order_of : List (SortColumn × SortDir) → Option ℕ → List (SortColumn × SortDir)
order_of sort none = sort
order_of sort (some _) = sort ++ (by_id, asc) ∷ []

-- OFFSET is emitted only behind a LIMIT.
abbrev offset_of : Option ℕ → Option ℕ → Option ℕ
offset_of none offset = none
offset_of (some _) offset = offset

abbrev pub over_fetch_factor : ℕ
over_fetch_factor = 10

module _ {MetaOp : Type 0} where
  -- The conditions of `buildSelectorSql`, joined by AND, in its order.
  unfoldable pub where_clauses : Filter MetaOp → List Clause
  unfolding in_clause range_clause
  where_clauses f =
      in_clause status (or_else f.status [])
      ++ (in_clause lifecycle (or_else f.lifecycle [])
          ++ (in_clause kind (or_else f.kind [])
              ++ (in_clause id (or_else f.ids [])
                  ++ (in_clause unit_id (or_else f.unit [])
                      ++ (in_clause region (or_else f.region [])
                          ++ (in_clause milestone (or_else f.milestone [])
                              ++ (in_clause required_level (or_else f.required_level [])
                                  ++ (eq_clause symbol f.symbol
                                      ++ (eq_clause address f.address
                                          ++ (bool_clause ready f.ready
                                              ++ (bool_clause exhausted f.exhausted
                                                  ++ (range_clause attempts f.attempts
                                                      ++ range_clause size f.size))))))))))))

  abbrev conditions_of : Option (Filter MetaOp) → List Clause
  conditions_of none = []
  conditions_of (some f) = where_clauses f

  abbrev pub meta_of : Option (Filter MetaOp) → List MetaOp
  meta_of none = []
  meta_of (some f) = or_else f.meta []

  unfoldable pub build_selector_sql :
      Selector MetaOp → (limit offset : Option ℕ) → CompiledSelector MetaOp
  unfolding where_clauses
  build_selector_sql s limit offset = record {
    conditions = conditions_of s.filter;
    order = order_of s.sort limit;
    limit = limit;
    offset = offset_of limit offset;
    meta_filters = meta_of s.filter;
  }

  abbrev times_factor : List MetaOp → ℕ → ℕ
  times_factor [] n = n
  times_factor (_ ∷ _) n = n * over_fetch_factor

  unfoldable pub compile_selector : Selector MetaOp → CompiledSelector MetaOp
  compile_selector s =
      build_selector_sql s
        (elim s.limit [ none ↦ none | some n ↦ some (times_factor (meta_of s.filter) n) ]) none

-- When a row meets a condition. A comparison with NULL is not true.
unfoldable pub holds : Row → Clause → Bool
holds row (in_list column values) = elim (row.text column) [
  | none ↦ false
  | some t ↦ any (λ v. v === t) values
]
holds row (text_is column v) = elim (row.text column) [ none ↦ false | some t ↦ t === v ]
holds row (flag_is column b) = elim (row.number column) [
  | none ↦ false
  | some n ↦ n == (if b then 1 else 0)
]
holds row (at_least column n) = elim (row.number column) [ none ↦ false | some m ↦ leb n m ]
holds row (at_most column n) = elim (row.number column) [ none ↦ false | some m ↦ leb m n ]

-- All conditions of a WHERE clause.
unfoldable pub holds_all : Row → List Clause → Bool
holds_all row [] = true
holds_all row (c ∷ cs) = holds row c && holds_all row cs

-- ===== src/Target/Selector/Meaning.antt =====
-- What the WHERE clause of src/target/selector.ts selects.
use decompi.Base.{
  ◌≡◌, refl, Bool, true, false, ◌&&◌, List, [], ◌∷◌, ◌++◌, Option, none, some, String, arith, ◌===◌,
  or_else, leb, ◌==◌, if◌then◌else◌,
}
use decompi.Target.Selector.{
  bool_clause, eq_clause, range_clause, TextColumn, NumberColumn, Row, Range, Filter, Clause,
  in_list, in_clause, where_clauses, holds, holds_all, in_clause,
}

-- A row's text is one of the listed values; an empty or missing list restricts nothing.
abbrev pub among : Row → TextColumn → Option (List String) → Bool
among row column none = true
among row column (some []) = true
among row column (some (v ∷ vs)) = holds row (in_list column (v ∷ vs))

abbrev pub text_equals : Row → TextColumn → Option String → Bool
text_equals row column none = true
text_equals row column (some v) = elim (row.text column) [ none ↦ false | some t ↦ t === v ]

abbrev pub flag_equals : Row → NumberColumn → Option Bool → Bool
flag_equals row column none = true
flag_equals row column (some b) = elim (row.number column) [
  | none ↦ false
  | some n ↦ n == (if b then 1 else 0)
]

abbrev pub within : Row → NumberColumn → Option Range → Bool
within row column none = true
within row column (some r) =
    elim r.min [
      | none ↦ true
      | some lo ↦ elim (row.number column) [ none ↦ false | some m ↦ leb lo m ]
    ]
    && elim r.max [
      | none ↦ true
      | some hi ↦ elim (row.number column) [ none ↦ false | some m ↦ leb m hi ]
    ]

holds_all-append :
    (row : Row) (cs ds : List Clause)
    → holds_all row (cs ++ ds) ≡ holds_all row cs && holds_all row ds
unfolding holds_all
holds_all-append row [] ds = refl
holds_all-append row (c ∷ cs) ds = ground (arith, holds_all-append row cs ds)

in_clause-among :
    (row : Row) (column : TextColumn) (values : Option (List String))
    → holds_all row (in_clause column (or_else values [])) ≡ among row column values
unfolding holds_all in_clause holds
in_clause-among row column none = refl
in_clause-among row column (some []) = refl
in_clause-among row column (some (v ∷ vs)) = ground arith

abbrev pub other_parts : {MetaOp : Type 0} → Filter MetaOp → Row → Bool
other_parts f row =
    among row TextColumn.region f.region
    && (among row TextColumn.milestone f.milestone
        && (among row TextColumn.required_level f.required_level
            && (text_equals row TextColumn.symbol f.symbol
                && (text_equals row TextColumn.address f.address
                    && (flag_equals row NumberColumn.ready f.ready
                        && (flag_equals row NumberColumn.exhausted f.exhausted
                            && (within row NumberColumn.attempts f.attempts
                                && within row NumberColumn.size f.size)))))))

-- What a selector's filter asks of a row: every part that is given holds.
abbrev pub selects : {MetaOp : Type 0} → Filter MetaOp → Row → Bool
selects f row =
    among row TextColumn.status f.status
    && (among row TextColumn.lifecycle f.lifecycle
        && (among row TextColumn.kind f.kind
            && (among row TextColumn.id f.ids
                && (among row TextColumn.unit_id f.unit && other_parts f row))))

text_clause :
    (row : Row) (column : TextColumn) (v : Option String)
    → holds_all row (eq_clause column v) ≡ text_equals row column v
unfolding holds_all holds
text_clause row column none = refl
text_clause row column (some v) = ground arith

flag_clause :
    (row : Row) (column : NumberColumn) (b : Option Bool)
    → holds_all row (bool_clause column b) ≡ flag_equals row column b
unfolding holds_all holds
flag_clause row column none = refl
flag_clause row column (some b) = ground arith

range-within :
    (row : Row) (column : NumberColumn) (r : Option Range)
    → holds_all row (range_clause column r) ≡ within row column r
unfolding holds_all holds range_clause
range-within row column none = refl
range-within row column (some r) = ground arith

-- The compiled WHERE clause holds of a row exactly when every given part of the filter does.
pub where_clauses-selects :
    {MetaOp : Type 0} (f : Filter MetaOp) (row : Row)
    → holds_all row (where_clauses f) ≡ selects f row
unfolding where_clauses
where_clauses-selects f row =
    simp (holds_all-append, in_clause-among, text_clause, flag_clause, range-within)

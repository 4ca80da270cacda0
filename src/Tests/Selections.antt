-- ===== src/Tests/Selections.antt =====
-- Selectors over a few work items.
use decompi.Base.{
  str_dec, ℕ, ◌≡◌, ◌≢◌, refl, Bool, ◌&&◌, List, [], ◌∷◌, Option, none, some, arith, take, drop, leb,
}
use decompi.Target.Selector.{
  TextColumn, Row, Filter, Selector, CompiledSelector, where_clauses, holds_all, build_selector_sql,
}
use decompi.Target.Selector.Meaning.{selects, among, where_clauses-selects}
use decompi.Target.Selector.Select.{select, Honest}
use decompi.Target.Selector.Paging.{kept, select-one_pass}
use decompi.Workflow.Scope.{RunScope, empty_filter, filter_of, apply_scope, intersect, kept_in}
use decompi.Workflow.Scope.Selection.{apply_scope-selects}

-- Item "b" of unit "u", pending.
abbrev row : Row
row = record {
  text = λ c. elim c [
    | TextColumn.id ↦ some "b"
    | TextColumn.unit_id ↦ some "u"
    | TextColumn.lifecycle ↦ some "pending"
    | _ ↦ none
  ];
  number = λ c. none;
}

abbrev filter : Filter ℕ
filter = record empty_filter { ids = some ("a" ∷ "b" ∷ []); lifecycle = some ("pending" ∷ []) }

where_clauses-selects_example : holds_all row (where_clauses filter) ≡ selects filter row
where_clauses-selects_example = where_clauses-selects filter row

abbrev selector : Selector ℕ
selector = record { filter = some filter; sort = []; limit = some 2 }

abbrev scope : RunScope
scope = record { target_ids = some ("b" ∷ "c" ∷ []); unit_ids = none }

overlap : intersect filter.ids ("b" ∷ "c" ∷ []) ≢ []
unfolding intersect kept_in str_dec
overlap = λ e. cc

apply_scope-selects_example :
    selects (filter_of (apply_scope selector (some scope)).filter) row
    ≡ selects (filter_of selector.filter) row
      && (among row TextColumn.id scope.target_ids && among row TextColumn.unit_id scope.unit_ids)
apply_scope-selects_example = apply_scope-selects selector scope row ((λ e. cc), overlap) tt

-- A scope that has nothing in common with the selector.
abbrev elsewhere : RunScope
elsewhere = record { target_ids = some ("z" ∷ []); unit_ids = none }

-- Numbers for rows; the meta operations of the selector want at least 3.
abbrev numbers : List ℕ
numbers = 1 ∷ 5 ∷ 2 ∷ 7 ∷ 9 ∷ []

part : List ℕ → Option ℕ → Option ℕ → List ℕ
part rows (some n) (some offset) = take n (drop offset rows)
part rows (some n) none = take n rows
part rows none _ = rows

abbrev ask : CompiledSelector ℕ → List ℕ
ask q = part numbers q.limit q.offset

abbrev passes : List ℕ → ℕ → Bool
passes ops r = leb 3 r

abbrev picky : Selector ℕ
picky = record {
  filter = some (record empty_filter { meta = some (3 ∷ []) });
  sort = [];
  limit = some 2;
}

ask-Honest : Honest ask passes picky numbers
unfolding part build_selector_sql
ask-Honest n offset = refl

select-one_pass_example :
    select ask passes 6 picky
    ≡ some (take 2 (kept ask passes picky numbers 3 [] ask-Honest refl 2 (omega arith) numbers))
select-one_pass_example =
    select-one_pass ask passes picky numbers 3 [] ask-Honest refl 2 (omega arith) refl 6
      (omega arith)

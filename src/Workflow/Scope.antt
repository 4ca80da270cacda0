-- ===== src/Workflow/Scope.antt =====
-- src/workflow/scope.ts: the explicit targets and units of a run, folded into a selector.
pub mod Selection
use decompi.Base.{Bool, List, [], ◌∷◌, Option, none, some, String, any, ◌===◌, if◌then◌else◌}
use decompi.Target.Selector.{Filter, Selector}

pub record RunScope : Type 0 where
  pub target_ids : Option (List String)
  pub unit_ids : Option (List String)

-- `existing.filter((id) => scope.includes(id))`
unfoldable pub kept_in : List String → List String → List String
kept_in scope [] = []
kept_in scope (id ∷ ids) =
    let rest = kept_in scope ids in if any (λ s. s === id) scope then id ∷ rest else rest

unfoldable pub intersect : Option (List String) → List String → List String
unfolding kept_in
intersect none scope = scope
intersect (some existing) scope = kept_in scope existing

abbrev pub narrowed : Option (List String) → Option (List String) → Option (List String)
narrowed existing none = existing
narrowed existing (some ids) = some (intersect existing ids)

abbrev pub nonempty : Option (List String) → Option (List String)
nonempty none = none
nonempty (some []) = none
nonempty (some (i ∷ is)) = some (i ∷ is)

module _ {MetaOp : Type 0} where
  -- `{}`
  abbrev pub empty_filter : Filter MetaOp
  empty_filter = record {
    status = none;
    lifecycle = none;
    kind = none;
    ids = none;
    unit = none;
    region = none;
    symbol = none;
    address = none;
    milestone = none;
    required_level = none;
    ready = none;
    exhausted = none;
    attempts = none;
    size = none;
    meta = none;
  }

  -- `selector.filter ?? {}`
  abbrev pub filter_of : Option (Filter MetaOp) → Filter MetaOp
  filter_of none = empty_filter
  filter_of (some f) = f

  unfoldable pub apply_scope : Selector MetaOp → Option RunScope → Selector MetaOp
  apply_scope selector none = selector
  apply_scope selector (some scope) =
      let f = filter_of selector.filter in
      record selector {
        filter = some (record f {
          ids = narrowed f.ids scope.target_ids;
          unit = narrowed f.unit scope.unit_ids;
        });
      }

  unfoldable pub scope_to_selector : RunScope → Selector MetaOp
  scope_to_selector scope = record {
    filter =
        some
          (record empty_filter { ids = nonempty scope.target_ids; unit = nonempty scope.unit_ids });
    sort = [];
    limit = none;
  }

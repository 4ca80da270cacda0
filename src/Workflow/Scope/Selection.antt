-- ===== src/Workflow/Scope/Selection.antt =====
-- What a scoped selector of src/workflow/scope.ts selects.
use decompi.Base.{
  Option-cases, ap, ◌≡◌, refl, ◌≢◌, inl, inr, Bool, true, false, ◌&&◌, List, [], ◌∷◌, Option, none,
  some, String, any, ◌===◌, arith, str_dec,
}
use decompi.Target.Selector.{Selector, Row, TextColumn, holds}
use decompi.Target.Selector.Meaning.{selects, other_parts, among}
use decompi.Workflow.Scope.{RunScope, kept_in, intersect, filter_of, apply_scope, narrowed}

-- A text is in a list.
abbrev includes : List String → String → Bool
includes ids t = any (λ v. v === t) ids

kept_in-includes :
    (scope ids : List String) (t : String)
    → includes (kept_in scope ids) t ≡ includes ids t && includes scope t
unfolding kept_in
kept_in-includes scope [] t = refl
kept_in-includes scope (id ∷ ids) t = elim (str_dec id t) [
  | yes e ↦ ground (arith, kept_in-includes scope ids t, ap (includes scope) e)
  | no n ↦ ground (arith, kept_in-includes scope ids t)
]

-- The row's text is in the list; NULL is in none.
listed : Row → TextColumn → List String → Bool
listed row column ids = elim (row.text column) [ none ↦ false | some t ↦ includes ids t ]

among-listed :
    (row : Row) (column : TextColumn) (ids : List String)
    → ids ≢ []
    → among row column (some ids) ≡ listed row column ids
unfolding holds listed
among-listed row column [] h = absurd (h refl)
among-listed row column (i ∷ is) h = refl

kept_in-nil : (ids : List String) → kept_in [] ids ≡ []
unfolding kept_in
kept_in-nil [] = refl
kept_in-nil (id ∷ ids) = kept_in-nil ids

-- Both lists are restrictions, and some identifier is in both.
abbrev pub Overlap : Option (List String) → Option (List String) → Type 0
Overlap existing none = Unit
Overlap existing (some ids) = (existing ≢ some []) × (intersect existing ids ≢ [])

narrowed-among :
    (row : Row) (column : TextColumn) (existing scope : Option (List String))
    → Overlap existing scope
    → among row column (narrowed existing scope)
      ≡ among row column existing && among row column scope
unfolding intersect listed holds
narrowed-among row column existing none h = ground arith
narrowed-among row column none (some ids) h = refl
narrowed-among row column (some []) (some ids) h = absurd (h.0 refl)
narrowed-among row column (some (e ∷ es)) (some ids) h =
    let ids' = kept_in ids (e ∷ es) in
    rw
      (
        among-listed row column ids' h.1,
        among-listed row column (e ∷ es) (λ z. cc),
        among-listed row column ids (scoped ids h.1),
      )
      (elim (Option-cases (row.text column)) [
        | inl z ↦ rw (z, listed)
        | inr (t, z) ↦ rw (z, listed) (kept_in-includes ids (e ∷ es) t)
      ])
  where
    scoped : (ids : List String) → kept_in ids (e ∷ es) ≢ [] → ids ≢ []
    scoped [] n = absurd (n (kept_in-nil (e ∷ es)))
    scoped (i ∷ is) n = λ z. cc

regroup :
    (a b c i u rest si su : Bool)
    → a && (b && (c && ((i && si) && ((u && su) && rest))))
      ≡ (a && (b && (c && (i && (u && rest))))) && (si && su)
regroup false b c i u rest si su = refl
regroup true false c i u rest si su = refl
regroup true true false i u rest si su = refl
regroup true true true i u rest si su = ground arith

module _ {MetaOp : Type 0} (s : Selector MetaOp) (scope : RunScope) (row : Row) where
  -- Where the scope and the selector overlap in each dimension that the scope gives, the scoped
  -- selector selects exactly the rows that the selector selects and that lie in the scope.
  pub apply_scope-selects :
      Overlap (filter_of s.filter).ids scope.target_ids
      → Overlap (filter_of s.filter).unit scope.unit_ids
      → selects (filter_of (apply_scope s (some scope)).filter) row
        ≡ selects (filter_of s.filter) row
          && (among row TextColumn.id scope.target_ids
              && among row TextColumn.unit_id scope.unit_ids)
  unfolding apply_scope
  apply_scope-selects targets units =
      let f = filter_of s.filter in
      rw
        (
          narrowed-among row TextColumn.id (filter_of s.filter).ids scope.target_ids targets,
          narrowed-among row TextColumn.unit_id (filter_of s.filter).unit scope.unit_ids units,
        )
        (regroup (among row TextColumn.status f.status) (among row TextColumn.lifecycle f.lifecycle)
          (among row TextColumn.kind f.kind) (among row TextColumn.id f.ids)
          (among row TextColumn.unit_id f.unit) (other_parts f row)
          (among row TextColumn.id scope.target_ids) (among row TextColumn.unit_id scope.unit_ids))

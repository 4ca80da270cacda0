-- ===== src/Pipeline/Engine/Triggers/Units.antt =====
-- The units of the items of a run in src/pipeline/engine.ts, and the keys of their triggers.
use decompi.Base.{
  ◌≡◌, true, List, [], ◌∷◌, ◌++◌, Option, none, some, String, ◌===◌, All, Bool-cases, inl, inr,
}
use decompi.Pipeline.Engine.{Item, has_id}
use decompi.Pipeline.Engine.Triggers.{with_unit, units_of, trigger_key}

-- Items whose units have keys among some.
abbrev pub IsKeyed : List String → String → Option String → Type 0
IsKeyed keys id none = Unit
IsKeyed keys id (some u) = has_id (trigger_key id u) keys ≡ true

abbrev pub AreKeyed : List String → String → List String → Type 0
AreKeyed keys id units = All (λ u. has_id (trigger_key id u) keys ≡ true) units

with_unit-AreKeyed :
    (keys : List String) (id : String) (o : Option String) (units : List String)
    → IsKeyed keys id o
    → AreKeyed keys id units
    → AreKeyed keys id (with_unit o units)
unfolding with_unit
with_unit-AreKeyed keys id none units h all = all
with_unit-AreKeyed keys id (some u) units h all = elim (Bool-cases (u === "")) [
  | inl e ↦ rw e all
  | inr e ↦ elim (Bool-cases (has_id u units)) [
    | inl f ↦ rw (e, f) all
    | inr f ↦ rw (e, f) (at_end units all)
  ]
]
  where
    at_end : (us : List String) → AreKeyed keys id us → AreKeyed keys id (us ++ u ∷ [])
    at_end [] a = (h, tt)
    at_end (v ∷ us) a = (a.0, at_end us a.1)

pub units_of-AreKeyed :
    (keys : List String) (id : String) (items : List Item) (units : List String)
    → All (λ (item : Item). IsKeyed keys id item.unit_id) items
    → AreKeyed keys id units
    → AreKeyed keys id (units_of items units)
unfolding units_of
units_of-AreKeyed keys id [] units h all = all
units_of-AreKeyed keys id (item ∷ items) units h all =
    units_of-AreKeyed keys id items (with_unit item.unit_id units) h.1
      (with_unit-AreKeyed keys id item.unit_id units h.0 all)

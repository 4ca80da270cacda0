-- ===== src/Pipeline/Engine.antt =====
-- The parts of src/pipeline/engine.ts that move items: batches, routes and their budgets, and the
-- triggers of complete units. What the hooks of a pipeline do is a parameter.
pub mod AgentLoop
pub mod Foreach
pub mod Scope
pub mod Registry
pub mod Triggers
pub mod Completion
use decompi.Base.{
  ℕ, zero, suc, ◌+◌, Bool, true, false, not, ◌&&◌, ◌||◌, List, [], ◌∷◌, ◌++◌, Option, none, some,
  String, ◌===◌, or_else, leb, ltb, if◌then◌else◌, any, length, take, drop,
}

-- A work item as the engine reads it; `field_of` gives its other fields, as text.
pub record Item : Type 0 where
  pub id : String
  pub unit_id : Option String
  pub status : String
  pub size : Option ℕ
  pub attempts : ℕ
  pub field_of : String → Option String

pub record AttemptsRange : Type 0 where
  pub min : Option ℕ
  pub max : Option ℕ

pub record When : Type 0 where
  pub size_below : Option ℕ
  pub status : Option (List String)
  pub attempts : Option AttemptsRange

pub record Route : Type 0 where
  pub to : String
  pub guard : Option When
  pub model : Option String
  pub max_attempts : Option ℕ

-- `ids.has(id)`
unfoldable pub has_id : String → List String → Bool
has_id k ks = any (λ j. j === k) ks

abbrev pub ids : List Item → List String
ids [] = []
ids (item ∷ items) = item.id ∷ ids items

-- `chunk` with the batches that are left to draw bounded by the items; `size` is positive.
unfoldable pub chunk_loop : ℕ → ℕ → List Item → List (List Item)
chunk_loop zero size items = []
chunk_loop (suc fuel) size [] = []
chunk_loop (suc fuel) size (item ∷ items) =
    take size (item ∷ items) ∷ chunk_loop fuel size (drop size (item ∷ items))

unfoldable pub chunk : List Item → ℕ → List (List Item)
unfolding chunk_loop
chunk items size = chunk_loop (length items) size items

unfoldable pub group_key : Item → String → String
group_key item key =
    if key === "unit" then or_else item.unit_id "" else or_else (item.field_of key) ""

-- The groups, in the order of their first items.
unfoldable pub put_group : String → Item → List (String × List Item) → List (String × List Item)
put_group k item [] = (k, item ∷ []) ∷ []
put_group k item ((j, group) ∷ groups) =
    let rest = put_group k item groups in
    if j === k then (j, group ++ item ∷ []) ∷ groups else (j, group) ∷ rest

unfoldable pub group_by : String → List Item → List (String × List Item) → List (String × List Item)
unfolding put_group
group_by key [] groups = groups
group_by key (item ∷ items) groups = group_by key items (put_group (group_key item key) item groups)

unfoldable pub chunk_groups : ℕ → List (String × List Item) → List (List Item)
chunk_groups size [] = []
chunk_groups size ((k, group) ∷ groups) = chunk group size ++ chunk_groups size groups

unfoldable pub partition : List Item → ℕ → Option String → List (List Item)
unfolding group_by chunk_groups chunk
partition items batch none = chunk items batch
partition items batch (some key) = chunk_groups batch (group_by key items [])

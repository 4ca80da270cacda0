-- ===== src/Pipeline/Engine/Registry.antt =====
-- Registration of pipelines and fragments in src/pipeline/engine.ts: the graph of their routes, and the
-- depth-first search that refuses a cycle. The maps of the engine are functions; the edges are a list of
-- entries, so that the search has finitely many nodes to colour.
pub mod Order
pub mod Ranks
pub mod Depths
pub mod Accepted
pub mod Cycles
pub mod Ending
use decompi.Base.{
  ℕ, zero, suc, List, [], ◌∷◌, ◌++◌, Option, none, some, String, ◌===◌, if◌then◌else◌, length,
}
use decompi.Pipeline.Engine.{Item}
use decompi.Pipeline.Engine.Foreach.{RunState}
use decompi.Pipeline.Engine.Foreach.Routing.{targets}
use decompi.Pipeline.Engine.Scope.{Step, Steps, foreach, finish, then_step}

module _ {W Turn : Type 0} where
  unfoldable mutual
    -- `collectRouteTargets`, for one step and for a list of steps.
    pub step_targets : Step W Turn → List String
    step_targets (foreach step steps) = targets step.on_reject ++ collect_route_targets steps
    step_targets _ = []

    pub collect_route_targets : Steps W Turn → List String
    collect_route_targets finish = []
    collect_route_targets (then_step step steps) = step_targets step ++ collect_route_targets steps

-- `routeTargets`: an entry for each node that was registered.
abbrev pub RouteGraph : Type 0
RouteGraph = List (String × List String)

-- `routeTargets.get(n) ?? []`
unfoldable pub edges : RouteGraph → String → List String
edges [] n = []
edges ((k, ts) ∷ g) n = let rest = edges g n in if k === n then ts else rest

-- `routeTargets.set(n, ts)`
unfoldable pub put_edges : String → List String → RouteGraph → RouteGraph
put_edges n ts [] = (n, ts) ∷ []
put_edges n ts ((k, us) ∷ g) =
    let rest = put_edges n ts g in if k === n then (k, ts) ∷ g else (k, us) ∷ rest

-- On the stack is gray.
pub data Color : Type 0 where
  white gray black : Color

pub record Search : Type 0 where
  pub color : String → Color
  pub path : List String

-- What a call of `dfs` gives; `running` is a search that is out of fuel.
pub data Walk : Type 0 where
  clear : Search → Walk
  cycle : List String → Walk
  running : Walk

unfoldable pub paint : String → Color → Search → Search
paint n c s = record s { color = λ k. if n === k then c else s.color k }

-- `path.slice(path.indexOf(target))`
unfoldable pub from_target : String → List String → List String
from_target t [] = []
from_target t (n ∷ path) = let rest = from_target t path in if n === t then n ∷ path else rest

-- `path.pop()`
unfoldable pub popped : List String → List String
popped [] = []
popped (n ∷ []) = []
popped (n ∷ m ∷ path) = n ∷ popped (m ∷ path)

-- The loop over the targets of a node, with `dfs` for the white ones.
unfoldable pub visit : (String → Search → Walk) → List String → Search → Walk
unfolding from_target
visit dfs [] s = clear s
visit dfs (t ∷ ts) s = elim (s.color t) [
  | gray ↦ cycle (from_target t s.path ++ t ∷ [])
  | white ↦ elim (dfs t s) [ clear s' ↦ visit dfs ts s' | cycle c ↦ cycle c | running ↦ running ]
  | black ↦ visit dfs ts s
]

unfoldable pub entered : String → Search → Search
unfolding paint
entered n s = paint n gray (record s { path = s.path ++ n ∷ [] })

unfoldable pub left : String → Search → Search
unfolding paint popped
left n s = paint n black (record s { path = popped s.path })

unfoldable pub dfs : RouteGraph → ℕ → String → Search → Walk
unfolding visit entered left edges
dfs g zero n s = running
dfs g (suc fuel) n s = elim (visit (dfs g fuel) (edges g n) (entered n s)) [
  | clear s' ↦ clear (left n s')
  | cycle c ↦ cycle c
  | running ↦ running
]

abbrev pub blank : Search
blank = record { color = λ n. white; path = [] }

-- Every node on the stack but the last one has an entry of its own, so this fuel is enough.
unfoldable pub find_cycle : RouteGraph → String → Walk
unfolding dfs
find_cycle g n = dfs g (suc (length g)) n blank

pub record Trigger : Type 0 where
  pub event : String
  pub to : String

pub record Pipeline (W Turn : Type 0) : Type 0 where
  pub id : String
  pub plan : RunState W → RunState W × List Item
  pub steps : Steps W Turn
  pub triggers : List Trigger
  -- the ladder of a compiled workflow
  pub statuses : Option (List String)
  pub done_statuses : Option (List String)
  pub completion_status : Option String

pub record Engine (W Turn : Type 0) : Type 0 where
  pub pipelines : String → Option (Pipeline W Turn)
  pub fragments : String → Option (Steps W Turn)
  pub route_targets : RouteGraph

pub data Registration : Type 0 where
  registered : Registration
  -- what `rejectCycle` throws
  route_cycle : List String → Registration
  empty_id : Registration
  unfinished : Registration

-- `rejectCycle`
unfoldable pub reject_cycle : RouteGraph → String → Registration
unfolding find_cycle
reject_cycle g n = elim (find_cycle g n) [
  | clear _ ↦ registered
  | cycle c ↦ route_cycle c
  | running ↦ unfinished
]

module _ {W Turn : Type 0} where
  abbrev pub fresh : Engine W Turn
  fresh = record { pipelines = λ n. none; fragments = λ n. none; route_targets = [] }

  -- A refused registration has been entered all the same.
  unfoldable pub register_pipeline : Pipeline W Turn → Engine W Turn → Engine W Turn × Registration
  unfolding reject_cycle put_edges collect_route_targets
  register_pipeline p e =
      let g = put_edges p.id (collect_route_targets p.steps) e.route_targets in
      let e' = record e {
        pipelines = λ n. if p.id === n then some p else e.pipelines n;
        route_targets = g;
      } in
      if p.id === "" then (e, empty_id) else (e', reject_cycle g p.id)

  unfoldable pub register_fragment :
      String → Steps W Turn → Engine W Turn → Engine W Turn × Registration
  unfolding reject_cycle put_edges collect_route_targets
  register_fragment id steps e =
      let g = put_edges id (collect_route_targets steps) e.route_targets in
      let e' = record e {
        fragments = λ n. if id === n then some steps else e.fragments n;
        route_targets = g;
      } in
      if id === "" then (e, empty_id) else (e', reject_cycle g id)

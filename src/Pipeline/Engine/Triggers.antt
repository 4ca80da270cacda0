-- ===== src/Pipeline/Engine/Triggers.antt =====
-- Runs of registered pipelines in src/pipeline/engine.ts with the triggers that they fire. The engine's
-- set of fired triggers is the part of its state that such runs change, and of the log the lines of starts
-- and triggers are kept; what a run does to the world
-- goes on into the runs that it triggers. Items are told apart by their ids.
pub mod Fates
pub mod Units
pub mod Dispatching
pub mod Ending
use decompi.Base.{
  ℕ, zero, suc, Bool, true, false, ◌&&◌, ◌||◌, List, [], ◌∷◌, ◌++◌, Option, none, some, String,
  ◌===◌, ltb, if◌then◌else◌,
}
use Prim.Native.String.{◌++◌ as str_append}
use decompi.Pipeline.Engine.{Item, ids, has_id}
use decompi.Pipeline.Engine.Foreach.{returns, throws, Running, then_do, no_pipeline, ScopeResult}
use decompi.Pipeline.Engine.Scope.{run_pipeline}
use decompi.Pipeline.Engine.Registry.{Trigger, Pipeline, Engine}

-- The triggers of one event; other events are not dispatched.
unfoldable pub unit_complete : List Trigger → List Trigger
unit_complete [] = []
unit_complete (t ∷ ts) =
    let rest = unit_complete ts in if t.event === "unitComplete" then t ∷ rest else rest

-- A unit joins the set in the order of the items; an empty name counts as none.
unfoldable pub with_unit : Option String → List String → List String
unfolding has_id
with_unit none units = units
with_unit (some u) units =
    if u === "" then units else if has_id u units then units else units ++ u ∷ []

unfoldable pub units_of : List Item → List String → List String
unfolding with_unit
units_of [] units = units
units_of (item ∷ items) units = units_of items (with_unit item.unit_id units)

unfoldable pub in_unit : String → Option String → Bool
in_unit u none = false
in_unit u (some v) = v === u

-- How many items of a unit are rejected or skipped.
unfoldable pub non_accepted : String → ScopeResult → List Item → ℕ
unfolding in_unit has_id
non_accepted u res [] = 0
non_accepted u res (item ∷ items) =
    let rest = non_accepted u res items in
    if in_unit u item.unit_id
      && (has_id item.id (ids res.rejected) || has_id item.id (ids res.skipped))
    then suc rest
    else rest

abbrev pub all_items : ScopeResult → List Item
all_items res = res.accepted ++ res.rejected ++ res.skipped

unfoldable pub trigger_key : String → String → String
trigger_key pipeline_id unit = str_append pipeline_id (str_append ":" unit)

-- The lines of the run's log that tell of a run's start, and of a trigger: its pipeline, the unit, and
-- the pipeline that it leads to.
pub data LogLine : Type 0 where
  run_start : (id : String) → LogLine
  triggered : (pipeline_id unit to : String) → LogLine

-- The log has its last line first.
pub record Session (W : Type 0) : Type 0 where
  pub world : W
  pub fired_triggers : List String
  pub log : List LogLine

module _ {W : Type 0} (run : String → Session W → Running (Session W × ScopeResult)) where
  -- The loop over the triggers of a unit.
  unfoldable pub run_targets :
      (pipeline_id unit : String) → List Trigger → Session W → Running (Session W)
  unfolding then_do
  run_targets pipeline_id u [] s = some (returns s)
  run_targets pipeline_id u (t ∷ ts) s =
      then_do (run t.to (record s { log = triggered pipeline_id u t.to ∷ s.log }))
        (λ (s', _). run_targets pipeline_id u ts s')

  abbrev pub passed_over : String → ScopeResult → String → Session W → Bool
  passed_over pipeline_id res u s =
      ltb 0 (non_accepted u res (all_items res))
      || has_id (trigger_key pipeline_id u) s.fired_triggers

  -- The loop over the units.
  unfoldable pub run_units :
      String → List Trigger → ScopeResult → List String → Session W → Running (Session W)
  unfolding run_targets then_do non_accepted has_id
  run_units pipeline_id triggers res [] s = some (returns s)
  run_units pipeline_id triggers res (u ∷ units) s = elim (passed_over pipeline_id res u s) [
    | true ↦ run_units pipeline_id triggers res units s
    | false ↦
        then_do
          (run_targets pipeline_id u triggers
            (record s { fired_triggers = trigger_key pipeline_id u ∷ s.fired_triggers }))
          (run_units pipeline_id triggers res units)
  ]

  -- With no trigger of the event nothing is looked at.
  unfoldable pub dispatch_to : String → List Trigger → ScopeResult → Session W → Running (Session W)
  unfolding run_units units_of
  dispatch_to pipeline_id [] res s = some (returns s)
  dispatch_to pipeline_id (t ∷ ts) res s =
      run_units pipeline_id (t ∷ ts) res (units_of (all_items res) []) s

  unfoldable pub dispatch_triggers :
      String → List Trigger → ScopeResult → Session W → Running (Session W)
  unfolding dispatch_to unit_complete
  dispatch_triggers pipeline_id triggers res s =
      dispatch_to pipeline_id (unit_complete triggers) res s

module _ {W Turn : Type 0} (e : Engine W Turn) (verifiers : String → Option (Item → W → W × Bool))
    (scope_fuel : ℕ) (default_model : String) where
  -- The scopes of one pipeline, as `runPipeline` runs them.
  unfoldable pub run_steps : Pipeline W Turn → Session W → Running (Session W × ScopeResult)
  unfolding run_pipeline then_do
  run_steps p s =
      then_do (run_pipeline e.fragments verifiers scope_fuel default_model p.plan p.steps s.world)
        (λ (state, res). some (returns (record s { world = state.world }, res)))

  -- `runPipeline`; the fuel bounds how deep triggers lead to further runs.
  unfoldable pub run_registered : ℕ → String → Session W → Running (Session W × ScopeResult)
  unfolding run_steps dispatch_triggers then_do
  run_registered zero id s = none
  run_registered (suc fuel) id s = elim (e.pipelines id) [
    | none ↦ some (throws no_pipeline)
    | some p ↦ then_do (run_steps p (record s { log = run_start id ∷ s.log })) (λ (s', res).
        then_do (dispatch_triggers (run_registered fuel) p.id p.triggers res s')
          (λ last. some (returns (last, res))))
  ]

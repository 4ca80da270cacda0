-- ===== src/Pipeline/Engine/Registry/Accepted.antt =====
-- Engines of src/pipeline/engine.ts that were filled by accepted registrations, and the runs of their
-- pipelines.
use mathlib.Core.Path.{subst}
use decompi.Base.{
  ap, ◌∙◌, inl, inr, ℕ, ◌+◌, ◌<◌, ◌≡◌, refl, Bool, true, List, [], ◌∷◌, Option, none, some, String,
  ◌===◌, if◌then◌else◌, arith, Bool-cases,
}
use decompi.Pipeline.Engine.{Item, has_id}
use decompi.Pipeline.Engine.AgentLoop.Play.{times}
use decompi.Pipeline.Engine.Foreach.{RunState, ScopeResult, returns}
use decompi.Pipeline.Engine.Scope.{Steps, run_pipeline, start_state}
use decompi.Pipeline.Engine.Scope.Soundness.{depth_steps, IsSoundSteps}
use decompi.Pipeline.Engine.Scope.Whole.{run_pipeline-Partitions}
use decompi.Pipeline.Engine.Registry.{
  RouteGraph, edges, put_edges, collect_route_targets, Pipeline, Engine, Registration, registered,
  route_cycle, empty_id, unfinished, reject_cycle, register_pipeline, register_fragment, find_cycle,
  clear, Search, fresh,
}
use decompi.Pipeline.Engine.Registry.Order.{Walk-cases}
use decompi.Pipeline.Engine.Registry.Ranks.{IsRanked, edges-put, find_cycle-IsRanked}
use decompi.Pipeline.Engine.Registry.Depths.{depth_of, depth_of-bounds}

-- A call of a registration.
pub data Entry (W Turn : Type 0) : Type 0 where
  pipeline : Pipeline W Turn → Entry W Turn
  fragment : String → Steps W Turn → Entry W Turn

reject_cycle-clear :
    (g : RouteGraph) (n : String)
    → reject_cycle g n ≡ registered
    → (s : Search) × (find_cycle g n ≡ clear s)
unfolding reject_cycle
reject_cycle-clear g n h = elim (Walk-cases (find_cycle g n)) [
  | inl (s, e) ↦ (s, e)
  | inr (inl (c, e)) ↦ absurd (ground (arith, h, e))
  | inr (inr e) ↦ absurd (ground (arith, h, e))
]

abbrev if_registered : {A : Type 0} → Registration → Option A → Option A
if_registered registered rest = rest
if_registered (route_cycle c) rest = none
if_registered empty_id rest = none
if_registered unfinished rest = none

if_registered-some :
    {A : Type 0} (o : Registration) (rest : Option A) (a : A)
    → if_registered o rest ≡ some a
    → (o ≡ registered) × (rest ≡ some a)
if_registered-some registered rest a h = (refl, h)
if_registered-some (route_cycle c) rest a h = cc
if_registered-some empty_id rest a h = cc
if_registered-some unfinished rest a h = cc

module _ {W Turn : Type 0} where
  abbrev pub register : Entry W Turn → Engine W Turn → Engine W Turn × Registration
  register (pipeline p) e = register_pipeline p e
  register (fragment id steps) e = register_fragment id steps e

  -- Calls in a row; `none` when one of them throws.
  unfoldable pub register_all : List (Entry W Turn) → Engine W Turn → Option (Engine W Turn)
  register_all [] e = some e
  register_all (call ∷ calls) e =
      let (e', outcome) = register call e in
      let rest = register_all calls e' in if_registered outcome rest

  -- No pipeline is registered under the id of a fragment.
  abbrev pub Apart : List (Entry W Turn) → Engine W Turn → Type 0
  Apart [] e = Unit
  Apart (pipeline p ∷ calls) e = (e.fragments p.id ≡ none) × Apart calls (register_pipeline p e).0
  Apart (fragment id steps ∷ calls) e = Apart calls (register_fragment id steps e).0

  record IsAcyclic (e : Engine W Turn) : Type 0 where
    rank : String → ℕ
    ranked : IsRanked e.route_targets rank
    recorded :
        (name : String) (steps : Steps W Turn)
        → e.fragments name ≡ some steps
        → edges e.route_targets name ≡ collect_route_targets steps

  fresh-IsAcyclic : IsAcyclic fresh
  unfolding edges has_id
  fresh-IsAcyclic = record { rank = λ n. 0; ranked = λ n t h. cc; recorded = λ name steps h. cc }

  put-IsRanked :
      (e : Engine W Turn) (n : String) (ts : List String)
      → IsAcyclic e
      → reject_cycle (put_edges n ts e.route_targets) n ≡ registered
      → (rank : String → ℕ) × IsRanked (put_edges n ts e.route_targets) rank
  put-IsRanked e n ts a h =
      let (s, found) = reject_cycle-clear (put_edges n ts e.route_targets) n h in
      find_cycle-IsRanked e.route_targets (put_edges n ts e.route_targets) a.rank n s a.ranked
        (λ m apart. ground (arith, edges-put n ts e.route_targets m)) found

  pipeline-IsAcyclic :
      (p : Pipeline W Turn) (e : Engine W Turn)
      → e.fragments p.id ≡ none
      → (register_pipeline p e).1 ≡ registered
      → IsAcyclic e
      → IsAcyclic (register_pipeline p e).0
  unfolding register_pipeline
  pipeline-IsAcyclic p e apart ok a = elim (Bool-cases (p.id === "")) [
    | inl empty ↦ absurd (ground (arith, ok, empty))
    | inr full ↦
        let (rank, ranked) =
          put-IsRanked e p.id (collect_route_targets p.steps) a (ground (arith, ok, full)) in
        rw full (record {
          rank = rank;
          ranked = ranked;
          recorded = λ name steps h. ground (
            arith,
            apart,
            h,
            a.recorded name steps,
            edges-put p.id (collect_route_targets p.steps) e.route_targets name,
          );
        })
  ]

  put-recorded :
      (frags : String → Option (Steps W Turn)) (g : RouteGraph) (id : String) (frag : Steps W Turn)
      (name : String) (steps : Steps W Turn)
      → (frags name ≡ some steps → edges g name ≡ collect_route_targets steps)
      → (if id === name then some frag else frags name) ≡ some steps
      → edges (put_edges id (collect_route_targets frag) g) name ≡ collect_route_targets steps
  put-recorded frags g id frag name steps old h = elim (Bool-cases (id === name)) [
    | inl same ↦
        edges-put id (collect_route_targets frag) g name
        ∙ rw same (ap collect_route_targets (cc (rw same at h)))
    | inr other ↦ edges-put id (collect_route_targets frag) g name ∙ rw other (old (rw other at h))
  ]

  fragment-IsAcyclic :
      (id : String) (frag : Steps W Turn) (e : Engine W Turn)
      → (register_fragment id frag e).1 ≡ registered
      → IsAcyclic e
      → IsAcyclic (register_fragment id frag e).0
  unfolding register_fragment
  fragment-IsAcyclic id frag e ok a = elim (Bool-cases (id === "")) [
    | inl empty ↦ absurd (ground (arith, ok, empty))
    | inr full ↦
        let (rank, ranked) =
          put-IsRanked e id (collect_route_targets frag) a (ground (arith, ok, full)) in
        rw full (record {
          rank = rank;
          ranked = ranked;
          recorded = λ name steps h.
              put-recorded e.fragments e.route_targets id frag name steps (a.recorded name steps) h;
        })
  ]

  register_all-IsAcyclic :
      (calls : List (Entry W Turn)) (e e' : Engine W Turn)
      → Apart calls e
      → register_all calls e ≡ some e'
      → IsAcyclic e
      → IsAcyclic e'
  unfolding register_all
  register_all-IsAcyclic [] e e' apart h a = subst IsAcyclic (cc) a
  register_all-IsAcyclic (pipeline p ∷ calls) e e' apart h a =
      let (ok, rest) = if_registered-some _ _ e' h in
      register_all-IsAcyclic calls (register_pipeline p e).0 e' apart.1 rest
        (pipeline-IsAcyclic p e apart.0 ok a)
  register_all-IsAcyclic (fragment id steps ∷ calls) e e' apart h a =
      let (ok, rest) = if_registered-some _ _ e' h in
      register_all-IsAcyclic calls (register_fragment id steps e).0 e' apart rest
        (fragment-IsAcyclic id steps e ok a)

  -- An engine that was filled by accepted registrations, with no pipeline under the id of a fragment and
  -- with sound steps in its fragments, runs any sound steps to an end with enough fuel, whatever is
  -- planned, and accepts, rejects and skips each item as often as the plan gives it.
  pub registered-Partitions :
      (calls : List (Entry W Turn)) (e : Engine W Turn)
      (verifiers : String → Option (Item → W → W × Bool)) (steps : Steps W Turn)
      → Apart calls fresh
      → register_all calls fresh ≡ some e
      → ((name : String) (frag : Steps W Turn)
          → e.fragments name ≡ some frag
          → IsSoundSteps e.fragments verifiers frag)
      → IsSoundSteps e.fragments verifiers steps
      → (fuel : ℕ) × ((default_model : String) (plan : RunState W → RunState W × List Item)
            (world : W)
          → (state' : RunState W) × (res : ScopeResult) × (run_pipeline e.fragments verifiers fuel
                default_model plan steps world
              ≡ some (returns (state', res)))
            × ((k : String)
                → times k res.accepted + times k res.rejected + times k res.skipped
                  ≡ times k (plan (start_state world)).1))
  registered-Partitions calls e verifiers steps apart h frags sound =
      let a = register_all-IsAcyclic calls fresh e apart h fresh-IsAcyclic in
      let falls : (name : String) (frag : Steps W Turn)
          → e.fragments name ≡ some frag
          → (t : String) → has_id t (collect_route_targets frag) ≡ true
          → a.rank t < a.rank name =
        λ name frag here t on. a.ranked name t (rw (a.recorded name frag here) on) in
      let rank = depth_of e.fragments a.rank falls in
      (
        depth_steps rank steps,
        λ default_model plan world.
            run_pipeline-Partitions e.fragments verifiers rank (depth_steps rank steps)
              default_model plan steps world
              (λ name frag here.
                (frags name frag here, depth_of-bounds e.fragments a.rank falls name frag here))
              sound (omega arith),
      )

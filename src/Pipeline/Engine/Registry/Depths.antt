-- ===== src/Pipeline/Engine/Registry/Depths.antt =====
-- Fragments whose routes lead to lower ranks have bounded depths: how deep the scopes go that a run of
-- src/pipeline/engine.ts nests.
use decompi.Base.{
  inl, inr, ℕ, zero, suc, ◌≤◌, ◌<◌, ◌≡◌, refl, true, ◌||◌, List, [], ◌∷◌, ◌++◌, Option, none, some,
  String, arith, Option-cases,
}
use decompi.Pipeline.Engine.{Route, has_id}
use decompi.Pipeline.Engine.Foreach.Routing.{targets}
use decompi.Pipeline.Engine.Scope.{
  Step, Steps, agent, shell, verify, transform, selects, gate, agent_loops, foreach, finish,
  then_step,
}
use decompi.Pipeline.Engine.Scope.Soundness.{max_rank, depth, depth_steps}
use decompi.Pipeline.Engine.Registry.{step_targets, collect_route_targets}

pub has_id-append :
    (t : String) (xs ys : List String) → has_id t (xs ++ ys) ≡ (has_id t xs || has_id t ys)
unfolding has_id
has_id-append t [] ys = refl
has_id-append t (x ∷ xs) ys = ground (arith, has_id-append t xs ys)

-- The two depths agree on the nodes of a list.
abbrev pub Agree : (String → ℕ) → (String → ℕ) → List String → Type 0
Agree r r' ts = (t : String) → has_id t ts ≡ true → r t ≡ r' t

module _ (r r' : String → ℕ) where
  Agree-left : (xs ys : List String) → Agree r r' (xs ++ ys) → Agree r r' xs
  Agree-left xs ys h t e = h t (ground (arith, has_id-append t xs ys, e))

  Agree-right : (xs ys : List String) → Agree r r' (xs ++ ys) → Agree r r' ys
  Agree-right xs ys h t e = h t (ground (arith, has_id-append t xs ys, e))

  max_rank-Agree :
      (routes : List Route) → Agree r r' (targets routes) → max_rank r routes ≡ max_rank r' routes
  unfolding has_id
  max_rank-Agree [] h = refl
  max_rank-Agree (route ∷ routes) h =
      let here = h route.to (ground arith) in
      let rest = max_rank-Agree routes (λ t e. h t (ground (arith, e))) in omega (arith, here, rest)

  module _ {W Turn : Type 0} where
    mutual
      unfolding depth depth_steps step_targets collect_route_targets

      depth-Agree :
          (step : Step W Turn) → Agree r r' (step_targets step) → depth r step ≡ depth r' step
      depth-Agree (foreach step steps) h =
          let inner = depth_steps-Agree steps (Agree-right (targets step.on_reject) _ h) in
          let routes =
            max_rank-Agree step.on_reject (Agree-left _ (collect_route_targets steps) h) in
          omega (arith, inner, routes)
      depth-Agree (agent _ _) h = refl
      depth-Agree (shell _) h = refl
      depth-Agree (verify _) h = refl
      depth-Agree (transform _) h = refl
      depth-Agree (selects _ _) h = refl
      depth-Agree (gate _) h = refl
      depth-Agree (agent_loops _ _ _) h = refl

      depth_steps-Agree :
          (steps : Steps W Turn)
          → Agree r r' (collect_route_targets steps)
          → depth_steps r steps ≡ depth_steps r' steps
      depth_steps-Agree finish h = refl
      depth_steps-Agree (then_step step steps) h =
          let one = depth-Agree step (Agree-left (step_targets step) _ h) in
          let rest = depth_steps-Agree steps (Agree-right (step_targets step) _ h) in
          omega (arith, one, rest)

module _ {W Turn : Type 0} (fragments : String → Option (Steps W Turn)) (rank : String → ℕ)
    (falls : (name : String) (steps : Steps W Turn)
      → fragments name ≡ some steps
      → (t : String) → has_id t (collect_route_targets steps) ≡ true
      → rank t < rank name) where
  -- The depth of a fragment, where routes are followed a number of times.
  tower : ℕ → String → ℕ
  tower zero name = 0
  tower (suc k) name = elim (fragments name) [ none ↦ 0 | some steps ↦ depth_steps (tower k) steps ]

  tower-some :
      (k : ℕ) (name : String) (steps : Steps W Turn)
      → fragments name ≡ some steps
      → tower (suc k) name ≡ depth_steps (tower k) steps
  unfolding tower
  tower-some k name steps e = rw (tower, e)

  tower-none : (k : ℕ) (name : String) → fragments name ≡ none → tower (suc k) name ≡ 0
  unfolding tower
  tower-none k name e = rw (tower, e)

  tower-eq :
      (b k k' : ℕ) (name : String) → rank name < b → b ≤ k → b ≤ k' → tower k name ≡ tower k' name
  tower-eq zero k k' name h p q = absurd (omega arith)
  tower-eq (suc b) zero k' name h p q = absurd (omega arith)
  tower-eq (suc b) (suc k) zero name h p q = absurd (omega arith)
  tower-eq (suc b) (suc k) (suc k') name h p q = elim (Option-cases (fragments name)) [
    | inl e ↦ cc (tower-none k name e, tower-none k' name e)
    | inr (steps, e) ↦
        let lower : Agree (tower k) (tower k') (collect_route_targets steps) = λ t on.
          tower-eq b k k' t (omega (arith, falls name steps e t on)) (omega arith) (omega arith) in
        cc (
          tower-some k name steps e,
          tower-some k' name steps e,
          depth_steps-Agree (tower k) (tower k') steps lower,
        )
  ]

  -- How deep a fragment goes.
  pub depth_of : String → ℕ
  depth_of name = tower (suc (rank name)) name

  pub depth_of-bounds :
      (name : String) (steps : Steps W Turn)
      → fragments name ≡ some steps
      → depth_steps depth_of steps ≤ depth_of name
  unfolding depth_of
  depth_of-bounds name steps e =
      let lower : Agree depth_of (tower (rank name)) (collect_route_targets steps) = λ t on.
        tower-eq (suc (rank t)) (suc (rank t)) (rank name) t (omega arith) (omega arith)
          (falls name steps e t on) in
      omega (
        arith,
        tower-some (rank name) name steps e,
        depth_steps-Agree depth_of (tower (rank name)) steps lower,
      )

-- ===== src/Pipeline/Guard/Cap.antt =====
-- How far a run can pass its cap under the guard of src/pipeline/run.ts.
use decompi.Base.{
  is_some, if◌then◌else◌, ℕ, ◌+◌, ◌≤◌, ◌≡◌, refl, List, [], ◌∷◌, none, some, arith, All,
}
use decompi.Agent.Budget.{BudgetTracker, check, spend, session_cost_micro_usd}
use decompi.Pipeline.Guard.{
  TurnEstimate, Turn, open_session, prompt_turn, take_turn, run_turns, estimate_turn_micro_usd,
  create_session, prompt,
}

-- What a turn costs: its tokens at the model's prices, where the model has any.
unfoldable pub turn_cost : Turn → ℕ
turn_cost (prompt_turn (some cost) usage) = session_cost_micro_usd usage cost
turn_cost _ = 0

abbrev pub cost_of : List Turn → ℕ
cost_of [] = 0
cost_of (t ∷ ts) = turn_cost t + cost_of ts

-- The turns of a run that happen, up to the one with which the run fails, and those that do not fail.
unfoldable pub taken : TurnEstimate → BudgetTracker → List Turn → List Turn
unfolding take_turn
taken e b [] = []
taken e b (t ∷ ts) =
    let (b', error) = take_turn e b t in
    let rest = taken e b' ts in t ∷ elim error [ some _ ↦ [] | none ↦ rest ]

unfoldable pub passed : TurnEstimate → BudgetTracker → List Turn → List Turn
unfolding take_turn
passed e b [] = []
passed e b (t ∷ ts) =
    let (b', error) = take_turn e b t in
    let rest = passed e b' ts in elim error [ some _ ↦ [] | none ↦ t ∷ rest ]

-- With this much spent before, a session is opened only if its estimate still fits under the limit, a
-- turn passes only if the run stays inside the limit with it, and nothing passes without a price.
abbrev pub Afforded : TurnEstimate → ℕ → ℕ → List Turn → Type 0
Afforded e limit spent [] = Unit
Afforded e limit spent (open_session none ∷ ts) = ⊥
Afforded e limit spent (open_session (some cost) ∷ ts) =
    (spent + estimate_turn_micro_usd e cost ≤ limit) × Afforded e limit spent ts
Afforded e limit spent (prompt_turn none usage ∷ ts) = ⊥
Afforded e limit spent (prompt_turn (some cost) usage ∷ ts) =
    (spent + session_cost_micro_usd usage cost ≤ limit)
    × Afforded e limit (spent + session_cost_micro_usd usage cost) ts

take_turn-limit :
    (e : TurnEstimate) (b : BudgetTracker) (t : Turn)
    → (take_turn e b t).0.limit_micro_usd ≡ b.limit_micro_usd
unfolding take_turn spend
take_turn-limit e b (open_session c) = refl
take_turn-limit e b (prompt_turn none u) = refl
take_turn-limit e b (prompt_turn (some c) u) = refl

take_turn-spent :
    (e : TurnEstimate) (b : BudgetTracker) (t : Turn)
    → (take_turn e b t).0.spent_micro_usd ≡ b.spent_micro_usd + turn_cost t
unfolding take_turn spend turn_cost
take_turn-spent e b (open_session c) = omega arith
take_turn-spent e b (prompt_turn none u) = omega arith
take_turn-spent e b (prompt_turn (some c) u) = omega arith

-- A turn that gives no error leaves the spend inside the limit.
take_turn-fits :
    (e : TurnEstimate) (b : BudgetTracker) (t : Turn) (limit : ℕ)
    → b.limit_micro_usd ≡ some limit
    → b.spent_micro_usd ≤ limit
    → (take_turn e b t).1 ≡ none
    → (take_turn e b t).0.spent_micro_usd ≤ limit
unfolding take_turn spend check
take_turn-fits e b (open_session c) limit l h ok = h
take_turn-fits e b (prompt_turn none u) limit l h ok = h
take_turn-fits e b (prompt_turn (some c) u) limit l h ok = ground arith

run_turns-spent :
    (e : TurnEstimate) (b : BudgetTracker) (ts : List Turn)
    → (run_turns e b ts).0.spent_micro_usd ≡ b.spent_micro_usd + cost_of (taken e b ts)
unfolding run_turns taken
run_turns-spent e b [] = omega arith
run_turns-spent e b (t ∷ ts) =
    ground (arith, take_turn-spent e b t, run_turns-spent e (take_turn e b t).0 ts)

passed-Afforded :
    (e : TurnEstimate) (b : BudgetTracker) (ts : List Turn) (limit : ℕ)
    → b.limit_micro_usd ≡ some limit
    → Afforded e limit b.spent_micro_usd (passed e b ts)
unfolding passed take_turn create_session prompt check spend
passed-Afforded e b [] limit l = tt
passed-Afforded e b (open_session none ∷ ts) limit l = tt
passed-Afforded e b (open_session (some cost) ∷ ts) limit l =
    ground (arith, l, passed-Afforded e b ts limit l)
passed-Afforded e b (prompt_turn none usage ∷ ts) limit l = tt
passed-Afforded e b (prompt_turn (some cost) usage ∷ ts) limit l =
    let b' = (spend b (session_cost_micro_usd usage cost)).0 in
    ground (arith, l, passed-Afforded e b' ts limit l)

cost_of-cap :
    (e : TurnEstimate) (b : BudgetTracker) (ts : List Turn) (limit most : ℕ)
    → b.limit_micro_usd ≡ some limit
    → b.spent_micro_usd ≤ limit
    → All (λ t. turn_cost t ≤ most) ts
    → b.spent_micro_usd + cost_of (taken e b ts)
      ≤ limit + (if is_some (run_turns e b ts).1 then most else 0)
unfolding run_turns taken
cost_of-cap e b [] limit most l h small = ground arith
cost_of-cap e b (t ∷ ts) limit most l h small = ground (
  arith,
  take_turn-limit e b t,
  take_turn-spent e b t,
  take_turn-fits e b t limit,
  cost_of-cap e (take_turn e b t).0 ts limit most,
)

-- A run with a cap that starts inside it, each turn of which costs at most `most`: what its turns cost
-- at their prices, the failing one included, is what the tracker reports; with what was spent before it
-- stays inside the cap if the run ends with no error, and at most `most` above it if an error ends the
-- run; and a session was opened only where its estimate still fitted, a turn passed only inside the cap.
pub run_turns-cap :
    (e : TurnEstimate) (b : BudgetTracker) (ts : List Turn) (limit most : ℕ)
    → b.limit_micro_usd ≡ some limit
    → b.spent_micro_usd ≤ limit
    → All (λ t. turn_cost t ≤ most) ts
    → let (after, error) = run_turns e b ts in
      (after.spent_micro_usd ≡ b.spent_micro_usd + cost_of (taken e b ts))
      × (b.spent_micro_usd + cost_of (taken e b ts) ≤ limit + (if is_some error then most else 0))
      × Afforded e limit b.spent_micro_usd (passed e b ts)
run_turns-cap e b ts limit most l h small = (
  run_turns-spent e b ts,
  cost_of-cap e b ts limit most l h small,
  passed-Afforded e b ts limit l,
)

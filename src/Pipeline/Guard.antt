-- ===== src/Pipeline/Guard.antt =====
-- src/pipeline/run.ts: the budget guard around the sessions of a run, and the filter of a resumed
-- run. The model's answers (its price, or none if `resolveModel` gives null, and the tokens that a
-- turn used) come from the runtime, so they are arguments.
pub mod Cap
use decompi.Base.{
  ℕ, ◌+◌, ◌*◌, Bool, true, false, not, List, [], ◌∷◌, Option, none, some, String, any, ◌===◌,
  if◌then◌else◌, or_else,
}
use decompi.Agent.Budget.{
  BudgetTracker, ModelCost, SessionUsage, check, spend, session_cost_micro_usd,
}

pub data GuardError : Type 0 where
  -- `resolveModel` returned null
  unpriced : GuardError
  -- `BudgetExceededError(spent, limit, stepCost)`
  budget_exceeded : (spent : ℕ) (limit : Option ℕ) (step_cost : ℕ) → GuardError

pub record TurnEstimate : Type 0 where
  pub input : ℕ
  pub output : ℕ

abbrev pub default_turn_estimate : TurnEstimate
default_turn_estimate = record { input = 100_000; output = 20_000 }

pub estimate_turn_micro_usd : TurnEstimate → ModelCost → ℕ
estimate_turn_micro_usd estimate cost =
    estimate.input * cost.input_per_m + estimate.output * cost.output_per_m

-- `createSession`: the check before a step. `none` lets it go ahead; nothing is charged.
pub create_session : TurnEstimate → BudgetTracker → Option ModelCost → Option GuardError
create_session estimate budget none = some unpriced
create_session estimate budget (some cost) =
    let step_cost = estimate_turn_micro_usd estimate cost in
    if check budget step_cost
    then none
    else some (budget_exceeded budget.spent_micro_usd budget.limit_micro_usd step_cost)

-- `prompt`: the turn has happened; charge it, and fail if the cap is now crossed.
pub prompt : BudgetTracker → Option ModelCost → SessionUsage → BudgetTracker × Option GuardError
prompt budget none usage = (budget, some unpriced)
prompt budget (some cost) usage =
    let step_cost = session_cost_micro_usd usage cost in
    let (budget', within) = spend budget step_cost in
    (
      budget',
      if within
          then none
          else some (budget_exceeded budget'.spent_micro_usd budget'.limit_micro_usd step_cost),
    )

-- What the steps of a run ask of the guarded runtime.
pub data Turn : Type 0 where
  open_session : Option ModelCost → Turn
  prompt_turn : Option ModelCost → SessionUsage → Turn

pub take_turn : TurnEstimate → BudgetTracker → Turn → BudgetTracker × Option GuardError
unfolding create_session prompt
take_turn estimate budget (open_session cost) = (budget, create_session estimate budget cost)
take_turn estimate budget (prompt_turn cost usage) = prompt budget cost usage

-- A run, which the first error ends; with the spend that `onBudgetSpent` reports then.
pub run_turns : TurnEstimate → BudgetTracker → List Turn → BudgetTracker × Option GuardError
run_turns estimate budget [] = (budget, none)
run_turns estimate budget (t ∷ ts) =
    let (budget', error) = take_turn estimate budget t in
    let rest = run_turns estimate budget' ts in
    elim error [ some e ↦ (budget', some e) | none ↦ rest ]

-- `wrapResumeSelect`, over items with the identifier `id`: finished items are dropped from what
-- `select` gives.
unfoldable pub wrap_resume_select {ℓ} :
    {A : Type ℓ} → (A → String) → Option (List String) → List A → List A
wrap_resume_select id none items = items
wrap_resume_select id (some done) [] = []
wrap_resume_select id (some done) (item ∷ items) =
    let rest = wrap_resume_select id (some done) items in
    if any (λ d. d === id item) done then rest else item ∷ rest

-- ===== src/Agent/Budget.antt =====
-- src/agent/budget.ts: integer micro-USD accounting of one run. A limit is `none` where the source
-- has `Infinity`. Amounts are natural numbers: the constructor and the guards of `check` and
-- `spend` throw on anything negative or not finite, and costs are rounded to integers.
use decompi.Base.{ℕ, ◌+◌, ◌-◌, ◌*◌, Bool, true, Option, none, some, leb}

pub record ModelCost : Type 0 where
  pub input_per_m : ℕ
  pub output_per_m : ℕ
  pub cache_read_per_m : ℕ
  pub cache_write_per_m : ℕ

pub record SessionUsage : Type 0 where
  pub input : ℕ
  pub output : ℕ
  pub cache_read : ℕ
  pub cache_write : ℕ

-- Prices are taken as whole numbers of micro-USD a token, so that `Math.round` is the identity.
unfoldable pub session_cost_micro_usd : SessionUsage → ModelCost → ℕ
session_cost_micro_usd usage cost =
    usage.input * cost.input_per_m
    + usage.output * cost.output_per_m
    + usage.cache_read * cost.cache_read_per_m
    + usage.cache_write * cost.cache_write_per_m

pub record BudgetTracker : Type 0 where
  pub limit_micro_usd : Option ℕ
  pub spent_micro_usd : ℕ

-- The getter: `max(0, limit - spent)`, or `Infinity`.
unfoldable pub remaining_micro_usd : BudgetTracker → Option ℕ
remaining_micro_usd t = elim t.limit_micro_usd [
  | none ↦ none
  | some limit ↦ some (limit - t.spent_micro_usd)
]

unfoldable pub check : BudgetTracker → ℕ → Bool
check t cost = elim t.limit_micro_usd [
  | none ↦ true
  | some limit ↦ leb (t.spent_micro_usd + cost) limit
]

unfoldable pub spend : BudgetTracker → ℕ → BudgetTracker × Bool
unfolding check
spend t cost =
    let t' : BudgetTracker = record t { spent_micro_usd = t.spent_micro_usd + cost } in
    (t', check t' 0)

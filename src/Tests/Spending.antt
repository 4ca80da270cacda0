-- ===== src/Tests/Spending.antt =====
-- Budgets, paced requests and a resumed run.
use decompi.Base.{
  ne_of_test, str_dec, ◌+◌, ◌≤◌, ◌<◌, ◌≡◌, ◌≢◌, refl, List, [], ◌∷◌, ◌++◌, map, none, some, String,
  arith, is_some, if◌then◌else◌,
}
use decompi.Agent.Budget.{BudgetTracker, ModelCost, SessionUsage, session_cost_micro_usd}
use decompi.Agent.RateLimit.{
  Registry, RateLimiter, Readings, register, pace, rpm_of, window, acquire,
}
use decompi.Agent.RateLimit.Pacing.{log_of, acquire_all, Honest, Spaced, acquire_all-Spaced}
use decompi.Pipeline.Guard.{
  wrap_resume_select, Turn, open_session, prompt_turn, default_turn_estimate, run_turns,
}
use decompi.Pipeline.Guard.Cap.{turn_cost, cost_of, taken, passed, Afforded, run_turns-cap}

abbrev budget : BudgetTracker
budget = record { limit_micro_usd = some 1_000_000; spent_micro_usd = 400_000 }

abbrev cost : ModelCost
cost = record { input_per_m = 3; output_per_m = 15; cache_read_per_m = 0; cache_write_per_m = 0 }

abbrev usage : SessionUsage
usage = record { input = 100_000; output = 10_000; cache_read = 0; cache_write = 0 }

-- A session and two turns of 450_000 each, of which the second crosses the cap.
abbrev turns : List Turn
turns =
    open_session (some cost) ∷ prompt_turn (some cost) usage ∷ prompt_turn (some cost) usage ∷ []

run_turns-cap_example :
    let (after, error) = run_turns default_turn_estimate budget turns in
    (after.spent_micro_usd ≡ 400_000 + cost_of (taken default_turn_estimate budget turns))
    × (400_000 + cost_of (taken default_turn_estimate budget turns)
        ≤ 1_000_000 + (if is_some error then 450_000 else 0))
    × Afforded default_turn_estimate 1_000_000 400_000 (passed default_turn_estimate budget turns)
unfolding turn_cost session_cost_micro_usd
run_turns-cap_example =
    run_turns-cap default_turn_estimate budget turns 1_000_000 450_000 refl (omega arith)
      (omega arith, (omega arith, (omega arith, tt)))

test_resume : wrap_resume_select (λ t. t) (some ("a" ∷ [])) ("a" ∷ "b" ∷ []) ≡ "b" ∷ []
unfolding wrap_resume_select str_dec
test_resume = refl

-- 60 requests a minute, so one a second, with a tick of a millisecond.
abbrev rpms : Registry
rpms = register (λ m. none) "m" 60

abbrev limiter : RateLimiter
limiter = record { next_at = λ m. none; releases = λ m. none }

-- The second request comes 100 ms behind the first, and sleeps.
abbrev readings : List Readings
readings =
    record { before = 5_000; after = 5_000; logged = 5_000 }
    ∷ record { before = 5_100; after = 6_001; logged = 6_001 }
    ∷ []

limited : 0 < rpm_of rpms "m"
unfolding rpm_of register str_dec
limited = omega arith

readings-Honest : Honest 1 rpms "m" limiter readings
unfolding Honest acquire pace rpm_of register str_dec
readings-Honest = (omega arith, omega arith, (omega arith, omega arith, tt))

acquire_all-Spaced_example :
    Spaced 1 rpms "m" (window limiter "m") readings
    × (log_of (acquire_all 1 rpms "m" limiter readings) "m"
        ≡ log_of limiter "m" ++ map (λ r. r.logged) readings)
acquire_all-Spaced_example = acquire_all-Spaced 1 rpms "m" limiter readings limited readings-Honest

abbrev reading : Readings
reading = record { before = 5_000; after = 5_000; logged = 5_000 }

different : ◌≢◌ {A = String} "m" "n"
unfolding str_dec
different = ne_of_test "m" "n" refl

-- ===== src/Agent/RateLimit/Pacing.antt =====
-- How far apart src/agent/ratelimit.ts lets the requests of one model leave.
use decompi.Base.{
  ℕ, ◌+◌, ◌*◌, ◌/◌, ◌≤◌, ◌<◌, ◌≡◌, ◌≢◌, sym, ◌∙◌, ap, List, [], ◌∷◌, ◌++◌, map, String, arith,
  or_else,
}
use mathlib.Core.List.{append-nil, append_assoc}
use decompi.Agent.RateLimit.{Registry, RateLimiter, Readings, window, wait, rpm_of, acquire}

-- The log of a model, empty if it has none.
abbrev pub log_of : RateLimiter → String → List ℕ
log_of l model = or_else (l.releases model) []

module _ (ticks_per_ms : ℕ) (rpms : Registry) (model : String) where
  unfoldable pub acquire_all : RateLimiter → List Readings → RateLimiter
  acquire_all l [] = l
  acquire_all l (r ∷ rs) = acquire_all (acquire ticks_per_ms rpms l model r) rs

  abbrev pub interval : ℕ
  interval = 60_000 * ticks_per_ms / rpm_of rpms model

  -- The clock runs forwards, and `sleep(ms)` ends no sooner than `ms` later.
  unfoldable pub Honest : RateLimiter → List Readings → Type 0
  Honest l [] = Unit
  Honest l (r ∷ rs) =
      (r.before + wait l model r ≤ r.after)
      × (r.after ≤ r.logged)
      × Honest (acquire ticks_per_ms rpms l model r) rs

  -- Each request leaves a full interval after the one before it.
  abbrev pub Spaced : ℕ → List Readings → Type 0
  Spaced open_at [] = Unit
  Spaced open_at (r ∷ rs) = (open_at ≤ r.after) × Spaced (r.after + interval) rs

  pub acquire-window :
      (l : RateLimiter) (r : Readings)
      → 0 < rpm_of rpms model
      → r.before + wait l model r ≤ r.after
      → (window l model ≤ r.after)
        × (window (acquire ticks_per_ms rpms l model r) model ≡ r.after + interval)
  unfolding acquire
  acquire-window l r limited slept = ground arith

  pub acquire-log :
      (l : RateLimiter) (r : Readings)
      → 0 < rpm_of rpms model
      → log_of (acquire ticks_per_ms rpms l model r) model ≡ log_of l model ++ r.logged ∷ []
  unfolding acquire
  acquire-log l r limited = ground arith

  -- However many requests a model with a positive rpm makes, under a clock that runs forwards and
  -- sleeps that are never short, each leaves no sooner than the window allows and a full interval
  -- after the one before, and the log gains exactly these requests, in order.
  pub acquire_all-Spaced :
      (l : RateLimiter) (rs : List Readings)
      → 0 < rpm_of rpms model
      → Honest l rs
      → Spaced (window l model) rs
        × (log_of (acquire_all l rs) model ≡ log_of l model ++ map (λ r. r.logged) rs)
  unfolding acquire_all Honest
  acquire_all-Spaced l [] limited h = (tt, sym (append-nil _))
  acquire_all-Spaced l (r ∷ rs) limited h =
      let after = acquire ticks_per_ms rpms l model r in
      let (opens, moved) = acquire-window l r limited h.0 in
      let (spaced, logged) = acquire_all-Spaced after rs limited h.2 in
      (
        (opens, rw moved at spaced),
        (logged ∙ ap (λ xs. xs ++ map (λ r. r.logged) rs) (acquire-log l r limited))
            ∙ append_assoc (log_of l model) (r.logged ∷ []) (map (λ r. r.logged) rs),
      )

  -- Pacing one model leaves the window and the log of any other model alone.
  acquire-other :
      (l : RateLimiter) (r : Readings) (other : String)
      → model ≢ other
      → (window (acquire ticks_per_ms rpms l model r) other ≡ window l other)
        × (log_of (acquire ticks_per_ms rpms l model r) other ≡ log_of l other)
  unfolding acquire
  acquire-other l r other n = ground arith

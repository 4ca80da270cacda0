-- ===== src/Agent/RateLimit.antt =====
-- src/agent/ratelimit.ts: one request per `60_000 / rpm` ms and model. Times count ticks,
-- `ticks_per_ms` of them to a millisecond, fine enough to make the quotient a whole number. A call
-- of `pace` reads the clock three times, around its sleep and for the log. The promise chain of a
-- model runs its calls one after the other, in the order of `acquire`.
pub mod Pacing
use Prim.Native.Nat.{max}
use decompi.Base.{
  ℕ, ◌+◌, ◌-◌, ◌*◌, ◌/◌, List, [], ◌∷◌, ◌++◌, Option, none, some, String, ite, str_dec, or_else,
  if◌then◌else◌, ◌==◌,
}

-- A `Map` from model names.
abbrev pub ModelMap : Type 0 → Type 0
ModelMap V = String → Option V

abbrev pub put : {V : Type 0} → String → V → ModelMap V → ModelMap V
put k v m j = ite (str_dec k j) (some v) (m j)

-- `StaticModelRegistry`
abbrev pub Registry : Type 0
Registry = ModelMap ℕ

unfoldable pub register : Registry → String → ℕ → Registry
register rpms name rpm = put name rpm rpms

unfoldable pub rpm_of : Registry → String → ℕ
rpm_of rpms model = or_else (rpms model) 0

pub record RateLimiter : Type 0 where
  pub next_at : ModelMap ℕ
  pub releases : ModelMap (List ℕ)

-- The readings of `now()` in one call of `pace`.
pub record Readings : Type 0 where
  pub before : ℕ
  pub after : ℕ
  pub logged : ℕ

-- `this.nextAt.get(model) ?? 0`
abbrev pub window : RateLimiter → String → ℕ
window l model = or_else (l.next_at model) 0

-- The milliseconds that `pace` sleeps, `max(0, at - now)`.
abbrev pub wait : RateLimiter → String → Readings → ℕ
wait l model r = window l model - r.before

unfoldable pub pace : RateLimiter → String → ℕ → Readings → RateLimiter
pace l model interval r = record {
  next_at = put model (max r.after (window l model) + interval) l.next_at;
  releases = put model (or_else (l.releases model) [] ++ r.logged ∷ []) l.releases;
}

unfoldable pub acquire : ℕ → Registry → RateLimiter → String → Readings → RateLimiter
unfolding rpm_of pace
acquire ticks_per_ms rpms l model r =
    let rpm = rpm_of rpms model in
    if rpm == 0 then l else pace l model (60_000 * ticks_per_ms / rpm) r

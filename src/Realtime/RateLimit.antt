-- ===== src/Realtime/RateLimit.antt =====
-- The token bucket that throttles joins (crates/atomo_realtime/src/rate_limit.rs). An `Instant` is a
-- count of nanoseconds; `-` on ℕ is `saturating_duration_since`.
pub mod Bounds
use atomo.Prelude.{ℕ, ◌-◌, Bool, true, false, if◌then◌else◌}
use atomo.Realtime.Runtime.{Floats}

pub record RateLimit (F : Floats) : Type 0 where
  pub burst : ℕ
  pub per_sec : F.Float

pub record RateLimiter (F : Floats) : Type 0 where
  pub burst : F.Float
  pub per_sec : F.Float
  pub tokens : F.Float
  pub last : ℕ

module _ {F : Floats} where
  unfoldable pub new : RateLimit F → ℕ → RateLimiter F
  new limit now = record {
    burst = F.of_u32 limit.burst;
    per_sec = limit.per_sec;
    tokens = F.of_u32 limit.burst;
    last = now;
  }

  -- The first half of `try_acquire`.
  unfoldable pub refill : ℕ → RateLimiter F → RateLimiter F
  refill now l =
      let elapsed = F.secs (now - l.last) in
      record l { last = now; tokens = F.fmin (F.add l.tokens (F.mul elapsed l.per_sec)) l.burst }

  unfoldable pub try_acquire : ℕ → RateLimiter F → Bool × RateLimiter F
  unfolding refill
  try_acquire now l =
      let r = refill now l in
      if F.ge r.tokens F.one then (true, record r { tokens = F.sub r.tokens F.one }) else (false, r)

-- ===== src/Realtime/RateLimit/Bounds.antt =====
-- The bucket never holds more than the burst, nor less than nothing
-- (crates/atomo_realtime/src/rate_limit.rs).
use atomo.Prelude.{ℕ, ◌≡◌, true, if◌then◌else◌, Bool-cases, inl, inr}
use atomo.Realtime.Runtime.{Floats}
use atomo.Realtime.RateLimit.{RateLimit, RateLimiter, new, refill, try_acquire}

-- What the bucket needs of float arithmetic.
pub record IsFloats (F : Floats) : Type 0 where
  pub min_bound : (a b : F.Float) → F.ge b (F.fmin a b) ≡ true
  pub refl_of_u32 : (n : ℕ) → F.ge (F.of_u32 n) (F.of_u32 n) ≡ true
  pub sub_bound : (a b : F.Float) → F.ge b a ≡ true → F.ge b (F.sub a F.one) ≡ true

module _ {F : Floats} (laws : IsFloats F) where
  abbrev pub WithinBurst : RateLimiter F → Type 0
  WithinBurst l = F.ge l.burst l.tokens ≡ true

  pub new-WithinBurst : (limit : RateLimit F) (now : ℕ) → WithinBurst (new limit now)
  unfolding new
  new-WithinBurst limit now = laws.refl_of_u32 limit.burst

  -- If float arithmetic has the bounds of `IsFloats`, then whatever the times of the calls, and
  -- however many were refused, the bucket does not hold more than its burst after `try_acquire`.
  pub try_acquire-WithinBurst : (now : ℕ) (l : RateLimiter F) → WithinBurst (try_acquire now l).1
  unfolding try_acquire
  try_acquire-WithinBurst now l = elim (Bool-cases (F.ge (refill now l).tokens F.one)) [
    | inl some_left ↦ rw (some_left, if◌then◌else◌) (laws.sub_bound _ _ (laws.min_bound _ l.burst))
    | inr empty ↦ rw (empty, if◌then◌else◌) (laws.min_bound _ l.burst)
  ]

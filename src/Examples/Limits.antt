-- ===== src/Examples/Limits.antt =====
-- Requests under the limit of the HTTP server (crates/atomo_server/src/rate_limit.rs).
use atomo.Prelude.{nat_key, ℕ, ◌+◌, ◌*◌, ◌≤◌, none, List, [], ◌∷◌, ◌≡◌, refl, arith}
use atomo.Prelude.Map
use atomo.Server.RateLimit.{RateLimiter, allowed, refused, new, check, nanos}
use atomo.Server.RateLimit.Buckets.{count_allowed, check_all}
use atomo.Server.RateLimit.Fairness.{
  refused_then_allowed, check_each, after_each, verdicts_of, check_independent, check_each_bound,
}

abbrev limiter : RateLimiter ℕ
limiter = new 2 60

-- Three requests of the address 7, with one of another between them.
abbrev burst : List (ℕ × ℕ)
burst = (1, 7) ∷ (2, 8) ∷ (3, 7) ∷ (4, 7) ∷ []

check_independent_example :
    verdicts_of 7 (check_each burst limiter) ≡ check_all 2 60 (1 ∷ 3 ∷ 4 ∷ []) none
unfolding new Map.get
check_independent_example = check_independent burst 7 limiter

check_each_bound_example : count_allowed (verdicts_of 7 (check_each burst limiter)) ≤ 4
unfolding new Map.get
check_each_bound_example =
    check_each_bound 1 burst 7 limiter
      ((omega arith, omega arith), ((omega arith, omega arith), ((omega arith, omega arith), tt)))
      (omega arith)

third_refused : verdicts_of 7 (check_each burst limiter) ≡ allowed ∷ allowed ∷ refused 60 ∷ []
unfolding check_each new Map.get Map.insert
third_refused = refl

-- The limiter after the burst, at the last request of which the address 7 is told to wait for 60 s.
abbrev exhausted : RateLimiter ℕ
exhausted = record limiter { state = (7, record { tokens = 0; last_refill = 1 }) ∷ [] }

-- Another address, and a request that comes too early.
abbrev between : List (ℕ × ℕ)
between = (5, 8) ∷ (6, 7) ∷ []

refused_then_allowed_example :
    (check (60 * nanos + 4) 7 (after_each between (check 4 7 exhausted).1)).0 ≡ allowed
unfolding check check_each new Map.get Map.insert
refused_then_allowed_example =
    refused_then_allowed 4 (60 * nanos + 4) 60 7 between exhausted (omega arith) (omega arith) refl
      refl (omega arith)

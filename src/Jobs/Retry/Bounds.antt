-- ===== src/Jobs/Retry/Bounds.antt =====
-- Bounds and growth of the backoff (crates/atomo_server/src/jobs.rs).
use native.Mathlib.Nat.{pow-le-pow_right}
use atomo.Prelude.{
  ℕ, zero, suc, ◌-◌, ◌*◌, ◌^◌, ◌≤◌, false, min, ◌≡◌, refl, arith, leb, if◌then◌else◌, Bool-cases,
  inl, inr,
}
use atomo.Jobs.Retry.{u64_max, saturating_mul, backoff_secs}

-- A power of two, kept shut.
pow2 : ℕ → ℕ
pow2 k = 2 ^ k

pow2_mono : (j k : ℕ) → j ≤ k → pow2 j ≤ pow2 k
unfolding pow2
pow2_mono j k h = pow-le-pow_right (omega arith) h

pow2_pos : (k : ℕ) → 1 ≤ pow2 k
unfolding pow2
pow2_pos k = pow-le-pow_right {n = 2} (omega arith) {i = 0} {j = k} (omega arith)

scaled-le : (b x y : ℕ) → x ≤ y → b * x ≤ b * y
scaled-le b x y h = grind arith

-- The delay after the power of two `p` is chosen.
abbrev capped : ℕ → ℕ → ℕ → ℕ
capped base limit p = min (saturating_mul base p) limit

backoff_secs-capped :
    (attempts base limit : ℕ)
    → backoff_secs attempts base limit ≡ (
        if leb attempts 1 then min base limit else capped base limit (pow2 (min (attempts - 1) 20)))
unfolding backoff_secs pow2
backoff_secs-capped attempts base limit = refl

capped_bounds :
    (base limit p : ℕ)
    → base ≤ u64_max
    → 1 ≤ p
    → (min base limit ≤ capped base limit p) × (capped base limit p ≤ limit)
capped_bounds base limit p h one = (omega (arith, scaled-le base 1 p one), omega arith)

capped_mono : (base limit p q : ℕ) → p ≤ q → capped base limit p ≤ capped base limit q
capped_mono base limit p q h = omega (arith, scaled-le base p q h)

-- For a base that fits a `u64`, the delay is at least the base or the cap, whichever is less, and
-- at most the cap.
pub backoff_secs_bounds :
    (attempts base limit : ℕ)
    → base ≤ u64_max
    → (min base limit ≤ backoff_secs attempts base limit)
      × (backoff_secs attempts base limit ≤ limit)
backoff_secs_bounds attempts base limit h =
    let p = pow2 (min (attempts - 1) 20) in
    ground (
      arith,
      backoff_secs-capped attempts base limit,
      capped_bounds base limit p h (pow2_pos (min (attempts - 1) 20)),
    )

-- For a base that fits a `u64`, later attempts do not wait less.
pub backoff_secs_mono :
    (a b base limit : ℕ)
    → base ≤ u64_max
    → a ≤ b
    → backoff_secs a base limit ≤ backoff_secs b base limit
backoff_secs_mono a b base limit h le = ground (
  arith,
  backoff_secs-capped a base limit,
  backoff_secs-capped b base limit,
  capped_bounds base limit (pow2 (min (b - 1) 20)) h (pow2_pos (min (b - 1) 20)),
  capped_mono base limit (pow2 (min (a - 1) 20)) (pow2 (min (b - 1) 20))
      (pow2_mono (min (a - 1) 20) (min (b - 1) 20) (omega arith)),
)

within_shift :
    (k base limit : ℕ)
    → limit ≤ u64_max
    → limit ≤ base * pow2 20
    → capped base limit (pow2 (min k 20)) ≡ min (base * pow2 k) limit
within_shift k base limit fits reached = elim (Bool-cases (leb k 20)) [
  | inl small ↦ let e : min k 20 ≡ k = ground arith in rw e (omega arith)
  | inr large ↦
      let e : min k 20 ≡ 20 = ground arith in
      let le : 20 ≤ k = ground arith in
      rw e (omega (arith, scaled-le base (pow2 20) (pow2 k) (pow2_mono 20 k le)))
]

first_attempt : pow2 0 ≡ 1
unfolding pow2
first_attempt = refl

shut_lem :
    (attempts base limit : ℕ)
    → 1 ≤ attempts
    → limit ≤ u64_max
    → limit ≤ base * pow2 20
    → backoff_secs attempts base limit ≡ min (base * pow2 (attempts - 1)) limit
shut_lem (suc zero) base limit one fits reached =
    rw (backoff_secs-capped 1 base limit) (rw first_attempt (omega arith))
shut_lem (suc (suc k)) base limit one fits reached =
    let e : suc (suc k) - 1 ≡ suc k = omega arith in
    let f : leb (suc (suc k)) 1 ≡ false = ground arith in
    rw (backoff_secs-capped (suc (suc k)) base limit, f, e)
      (within_shift (suc k) base limit fits reached)
shut_lem zero base limit one fits reached = absurd (omega arith)

-- Neither the capped shift nor the saturating product shows: from the first attempt on, where the
-- cap fits a `u64` and is reached within twenty doublings, the delay is the base doubled once for
-- each attempt after the first, up to the cap.
pub backoff_secs_lem :
    (attempts base limit : ℕ)
    → 1 ≤ attempts
    → limit ≤ u64_max
    → limit ≤ base * 2 ^ 20
    → backoff_secs attempts base limit ≡ min (base * 2 ^ (attempts - 1)) limit
unfolding pow2
backoff_secs_lem attempts base limit one fits reached =
    shut_lem attempts base limit one fits reached

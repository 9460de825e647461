-- ===== src/Server/RateLimit/Buckets.antt =====
-- How many requests a bucket lets through (crates/atomo_server/src/rate_limit.rs).
use atomo.Prelude.{
  All-mono, ℕ, ◌+◌, ◌-◌, ◌*◌, ◌/◌, ◌≤◌, ◌<◌, Bool, true, false, Option, none, some, List, [], ◌∷◌,
  leb, if◌then◌else◌, ◌≡◌, refl, arith, All, Bool-cases, inl, inr,
}
use atomo.Server.RateLimit.{
  TokenBucket, Verdict, allowed, refused, nanos, or_full, elapsed, take_token, check_bucket,
}

abbrev pub is_allowed : Verdict → Bool
is_allowed allowed = true
is_allowed (refused n) = false

-- The verdicts on the requests of one address at some times.
unfoldable pub check_all : ℕ → ℕ → List ℕ → Option TokenBucket → List Verdict
unfolding check_bucket
check_all max window [] o = []
check_all max window (t ∷ ts) o =
    let r = check_bucket max window t o in r.0 ∷ check_all max window ts (some r.1)

abbrev pub count_allowed : List Verdict → ℕ
count_allowed [] = 0
count_allowed (v ∷ vs) = (if is_allowed v then 1 else 0) + count_allowed vs

-- A request that is let through takes one token, and another takes none.
take_token_lem :
    (window passed : ℕ) (b : TokenBucket)
    → let r = take_token window passed b in
      ((if is_allowed r.0 then 1 else 0) + r.1.tokens ≡ b.tokens)
      × (r.1.last_refill ≡ b.last_refill)
take_token_lem window passed b = ground arith

module _ (max window : ℕ) where
  check_full :
      (t : ℕ) (b : TokenBucket)
      → leb window (elapsed t b) ≡ true
      → check_bucket max window t (some b)
        ≡ take_token window (elapsed t b) (record { tokens = max; last_refill = t })
  unfolding check_bucket
  check_full t b due = rw due refl

  check_kept :
      (t : ℕ) (b : TokenBucket)
      → leb window (elapsed t b) ≡ false
      → check_bucket max window t (some b) ≡ take_token window (elapsed t b) b
  unfolding check_bucket
  check_kept t b early = rw early refl

  abbrev Early : ℕ → ℕ → Type 0
  Early last t = (t - last) / nanos < window

  -- While no refill is due, a bucket lets through what it holds.
  drains :
      (ts : List ℕ) (b : TokenBucket)
      → All (Early b.last_refill) ts
      → count_allowed (check_all max window ts (some b)) ≤ b.tokens
  unfolding check_all
  drains [] b h = omega arith
  drains (t ∷ ts) b h =
      let r = take_token window (elapsed t b) b in
      let kept = take_token_lem window (elapsed t b) b in
      rw (check_kept t b (ground (arith, h.0)))
        (omega (arith, kept.0, drains ts r.1 (rw kept.1 h.1)))

  -- Of requests within less than a window of each other, at most twice the limit are let through.
  within :
      (ts : List ℕ) (start : ℕ) (b : TokenBucket)
      → All (λ t. (start ≤ t) × Early start t) ts
      → b.tokens ≤ max
      → count_allowed (check_all max window ts (some b)) ≤ b.tokens + max
  unfolding check_all
  within [] start b h few = omega arith
  within (t ∷ ts) start b h few = elim (Bool-cases (leb window (elapsed t b))) [
    | inl due ↦
        let full : TokenBucket = record { tokens = max; last_refill = t } in
        let r = take_token window (elapsed t b) full in
        let kept = take_token_lem window (elapsed t b) full in
        rw (check_full t b due) (
          omega (
            arith,
            kept.0,
            drains ts r.1 (
                rw kept.1 (
                  All-mono (λ (u : ℕ). (start ≤ u) × Early start u) (Early t)
                    (λ u x. omega (arith, x.0, x.1, h.0.0)) ts h.1)),
          ))
    | inr early ↦
        let r = take_token window (elapsed t b) b in
        let kept = take_token_lem window (elapsed t b) b in
        rw (check_kept t b early)
          (omega (arith, kept.0, within ts start r.1 h.1 (omega (arith, kept.0, few))))
  ]

  -- At times that lie within less than a window of the first, an address has at most twice the limit of
  -- requests let through, whatever its bucket holds at first, up to the limit.
  pub check_all_bound :
      (start : ℕ) (ts : List ℕ) (o : Option TokenBucket)
      → All (λ t. (start ≤ t) × ((t - start) / nanos < window)) ts
      → (or_full max start o).tokens ≤ max
      → count_allowed (check_all max window ts o) ≤ 2 * max
  unfolding check_all check_bucket
  check_all_bound start ts (some b) h few = omega (arith, within ts start b h few, few)
  check_all_bound start [] none h few = omega arith
  check_all_bound start (t ∷ ts) none h few =
      let b : TokenBucket = record { tokens = max; last_refill = t } in
      omega (arith, within (t ∷ ts) start b h (omega arith))

-- ===== src/Server/RateLimit/Fairness.antt =====
-- The limit is kept for each address by itself, and the wait that is announced is long enough
-- (crates/atomo_server/src/rate_limit.rs).
use atomo.Prelude.{
  Key, ◌==◌, ℕ, ◌+◌, ◌-◌, ◌*◌, ◌/◌, ◌≤◌, ◌<◌, Option, none, some, List, [], ◌∷◌, if◌then◌else◌, ◌≡◌,
  refl, sym, subst, false, ap, ap₂, ◌∙◌, arith, Bool-cases, Option-cases, inl, inr, All,
}
use atomo.Prelude.Map
use atomo.Prelude.Map.{get-insert}
use atomo.Server.RateLimit.{
  TokenBucket, RateLimiter, Verdict, allowed, refused, nanos, max_one, or_full, elapsed,
  check_bucket, check,
}
use atomo.Server.RateLimit.Buckets.{is_allowed, check_all, count_allowed, check_all_bound}

max_one-le : (n : ℕ) → (n ≤ max_one n) × (1 ≤ max_one n)
max_one-le n = ground arith

refused-injective : (m n : ℕ) → refused m ≡ refused n → m ≡ n
refused-injective m n h = ground (arith, h)

module _ (max window : ℕ) where
  -- A bucket that refuses keeps no token, no refill is due, and it announces the rest of the window.
  refusal :
      (now wait : ℕ) (b : TokenBucket)
      → 0 < max
      → (check_bucket max window now (some b)).0 ≡ refused wait
      → (elapsed now b < window)
        × (wait ≡ max_one (window - elapsed now b))
        × ((check_bucket max window now (some b)).1 ≡ b)
  unfolding check_bucket
  refusal now wait b some_requests h =
      ground (arith, h, refused-injective (max_one (window - elapsed now b)) wait)

  due_allowed :
      (later : ℕ) (b : TokenBucket)
      → 0 < max
      → window ≤ elapsed later b
      → (check_bucket max window later (some b)).0 ≡ allowed
  unfolding check_bucket
  due_allowed later b some_requests due = ground (arith, some_requests, due)

  waited :
      (now later passed wait last : ℕ)
      → last ≤ now
      → passed ≡ (now - last) / nanos
      → window ≤ passed + wait
      → now + wait * nanos ≤ later
      → window ≤ (later - last) / nanos
  waited now later passed wait last le e enough long = omega (arith, le, e, enough, long)

  -- A bucket that refuses with a wait lets a request through from the end of that wait on.
  refusal_ends :
      (now later wait : ℕ) (b : TokenBucket)
      → 0 < max
      → b.last_refill ≤ now
      → (check_bucket max window now (some b)).0 ≡ refused wait
      → now + wait * nanos ≤ later
      → (check_bucket max window later (some b)).0 ≡ allowed
  refusal_ends now later wait b some_requests seen h le =
      let r = refusal now wait b some_requests h in
      due_allowed later b some_requests (
        waited now later (elapsed now b) wait b.last_refill seen refl
          (omega (arith, r.0, r.1, max_one-le (window - elapsed now b))) le)

  refusal_keeps :
      (now : ℕ) (b : TokenBucket)
      → 0 < max
      → is_allowed (check_bucket max window now (some b)).0 ≡ false
      → (check_bucket max window now (some b)).1 ≡ b
  unfolding check_bucket
  refusal_keeps now b some_requests h = ground (arith, some_requests, h)

  none_refuses :
      (now wait : ℕ) → 0 < max → (check_bucket max window now none).0 ≡ refused wait → now < 0
  unfolding check_bucket
  none_refuses now wait some_requests h = ground (arith, some_requests, h)

none_counted :
    (v : Verdict) (n : ℕ) → (if is_allowed v then 1 else 0) + n ≡ 0 → is_allowed v ≡ false
none_counted v n h = ground (arith, h)

module _ {Ip : Type 0} ⦃e : Key Ip⦄ where
  -- Requests of several addresses, one after another, with their verdicts.
  unfoldable pub check_each : List (ℕ × Ip) → RateLimiter Ip → List (Ip × Verdict)
  unfolding check
  check_each [] l = []
  check_each ((now, ip) ∷ rest) l = let r = check now ip l in (ip, r.0) ∷ check_each rest r.1

  abbrev pub verdicts_of : Ip → List (Ip × Verdict) → List Verdict
  verdicts_of ip [] = []
  verdicts_of ip ((j, v) ∷ rest) = let vs = verdicts_of ip rest in if j == ip then v ∷ vs else vs

  abbrev pub times_of : Ip → List (ℕ × Ip) → List ℕ
  times_of ip [] = []
  times_of ip ((t, j) ∷ rest) = let ts = times_of ip rest in if j == ip then t ∷ ts else ts

  bucket_after :
      (now : ℕ) (j ip : Ip) (l : RateLimiter Ip)
      → Map.get ip (check now j l).1.state ≡ (
          if j == ip
          then some (check_bucket l.max_requests l.window_secs now (Map.get j l.state)).1
          else Map.get ip l.state)
  unfolding check
  bucket_after now j ip l = get-insert j ip _ l.state

  -- The verdicts that an address gets are those that it would get if no other sent requests.
  pub check_independent :
      (requests : List (ℕ × Ip)) (ip : Ip) (l : RateLimiter Ip)
      → verdicts_of ip (check_each requests l)
        ≡ check_all l.max_requests l.window_secs (times_of ip requests) (Map.get ip l.state)
  unfolding check_each check check_all
  check_independent [] ip l = refl
  check_independent ((now, j) ∷ rest) ip l =
      let l' = (check now j l).1 in
      let verdict = λ (k : Ip). check_bucket l.max_requests l.window_secs now (Map.get k l.state) in
      let rest_same = check_independent rest ip l' in
      let others =
        λ (o : Option TokenBucket). check_all l.max_requests l.window_secs (times_of ip rest) o in
      elim (Bool-cases (j == ip)) [
        | inl same ↦
            let p = (e.eqb_iff j ip).0 same in
            rw same (
              ap₂ (λ (v : Verdict) (vs : List Verdict). v ∷ vs) (ap (λ (k : Ip). (verdict k).0) p)
                (rest_same
                  ∙ ap others
                      (bucket_after now j ip l ∙ rw same (ap (λ (k : Ip). some (verdict k).1) p))))
        | inr other ↦ rw other (rest_same ∙ ap others (bucket_after now j ip l ∙ rw other refl))
      ]

  -- Of requests to the limiter in any order of addresses, at times within less than a window of the
  -- first, each address has at most twice the limit let through, if no bucket holds more than the limit.
  pub check_each_bound :
      (start : ℕ) (requests : List (ℕ × Ip)) (ip : Ip) (l : RateLimiter Ip)
      → All (λ t. (start ≤ t) × ((t - start) / nanos < l.window_secs)) (times_of ip requests)
      → (or_full l.max_requests start (Map.get ip l.state)).tokens ≤ l.max_requests
      → count_allowed (verdicts_of ip (check_each requests l)) ≤ 2 * l.max_requests
  check_each_bound start requests ip l near few = rw (check_independent requests ip l) (
      check_all_bound l.max_requests l.window_secs start (times_of ip requests) (Map.get ip l.state)
        near few)

  -- The limiter after requests.
  unfoldable pub after_each : List (ℕ × Ip) → RateLimiter Ip → RateLimiter Ip
  unfolding check
  after_each [] l = l
  after_each ((now, ip) ∷ rest) l = after_each rest (check now ip l).1

  -- The bucket of an address and the settings stay while its requests are refused.
  abbrev Keeps : Ip → TokenBucket → RateLimiter Ip → RateLimiter Ip → Type 0
  Keeps ip b l l' =
      (Map.get ip l'.state ≡ some b)
      × (l'.max_requests ≡ l.max_requests)
      × (l'.window_secs ≡ l.window_secs)

  after_each-Keeps :
      (between : List (ℕ × Ip)) (ip : Ip) (b : TokenBucket) (l : RateLimiter Ip)
      → 0 < l.max_requests
      → Map.get ip l.state ≡ some b
      → count_allowed (verdicts_of ip (check_each between l)) ≡ 0
      → Keeps ip b l (after_each between l)
  unfolding after_each check_each check
  after_each-Keeps [] ip b l some_requests there none_allowed = (there, refl, refl)
  after_each-Keeps ((now, j) ∷ rest) ip b l some_requests there none_allowed =
      elim (Bool-cases (j == ip)) [
        | inl same ↦
            let p = (e.eqb_iff j ip).0 same in
            let here = ap (λ (k : Ip). Map.get k l.state) p ∙ there in
            let verdict =
              λ (o : Option TokenBucket). check_bucket l.max_requests l.window_secs now o in
            let counted : (if is_allowed (check now j l).0 then 1 else 0)
                  + count_allowed (verdicts_of ip (check_each rest (check now j l).1))
                ≡ 0 =
              ground (arith, none_allowed, same) in
            let refused =
              ap (λ (o : Option TokenBucket). is_allowed (verdict o).0) (sym here)
              ∙ none_counted (check now j l).0
                  (count_allowed (verdicts_of ip (check_each rest (check now j l).1))) counted in
            after_each-Keeps rest ip b (check now j l).1 some_requests
              (bucket_after now j ip l
                ∙ rw same (
                    ap (λ (o : Option TokenBucket). some (verdict o).1) here
                    ∙ ap some
                        (refusal_keeps l.max_requests l.window_secs now b some_requests refused)))
              (ground (arith, counted))
        | inr other ↦
            after_each-Keeps rest ip b (check now j l).1 some_requests
              (bucket_after now j ip l ∙ rw other there) (ground (arith, none_allowed, other))
      ]

  -- If a request of an address is refused with a wait, the limit is not zero and the clock has not gone
  -- back, then the next request of the address that comes at least so many seconds later is let through,
  -- whatever other addresses sent, if those of its own in between were all refused.
  pub refused_then_allowed :
      (now later wait : ℕ) (ip : Ip) (between : List (ℕ × Ip)) (l : RateLimiter Ip)
      → 0 < l.max_requests
      → (or_full l.max_requests now (Map.get ip l.state)).last_refill ≤ now
      → (check now ip l).0 ≡ refused wait
      → count_allowed (verdicts_of ip (check_each between (check now ip l).1)) ≡ 0
      → now + wait * nanos ≤ later
      → (check later ip (after_each between (check now ip l).1)).0 ≡ allowed
  unfolding check
  refused_then_allowed now later wait ip between l some_requests seen h none_allowed le =
      let verdict = λ (o : Option TokenBucket). check_bucket l.max_requests l.window_secs now o in
      elim (Option-cases (Map.get ip l.state)) [
        | inl absent ↦ absurd (
            omega (
              arith,
              none_refuses l.max_requests l.window_secs now wait some_requests
                  (ap (λ (o : Option TokenBucket). (verdict o).0) (sym absent) ∙ h),
            ))
        | inr (b, there) ↦
            let first = ap (λ (o : Option TokenBucket). (verdict o).0) (sym there) ∙ h in
            let l' = (check now ip l).1 in
            let kept =
              after_each-Keeps between ip b l' some_requests
                (bucket_after now ip ip l
                  ∙ rw ((e.eqb_iff ip ip).1 refl) (
                      ap (λ (o : Option TokenBucket). some (verdict o).1) there
                      ∙ ap some (
                          refusal_keeps l.max_requests l.window_secs now b some_requests
                            (ap is_allowed first))))
                none_allowed in
            rw (kept.0, kept.1, kept.2)
              (refusal_ends l.max_requests l.window_secs now later wait b some_requests
                (subst
                  (λ (o : Option TokenBucket). (or_full l.max_requests now o).last_refill ≤ now)
                  there seen)
                first le)
      ]

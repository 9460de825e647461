-- ===== src/Jobs/Tokens.antt =====
-- Lease tokens (crates/atomo_server/src/jobs.rs): once a lease is given back, has run out or has been
-- completed, its token is worth nothing, whatever happens afterwards.
use atomo.Prelude.{
  String, Bool, true, false, Option, none, some, List, [], ◌∷◌, ◌≡◌, ◌≢◌, refl, sym, ap₂, subst,
  arith, eq_iff, All,
}
use atomo.Prelude.Int.{ℤ, pos, negsuc}
use atomo.Jobs.Retry.{FailOutcome, retry, dead_letter}
use atomo.Jobs.Store.{
  Job, JobStore, Request, any_where, find_where, has_id, holds, conflicts, enqueue_at, enqueue_tx,
  sent_if_created, emit_enqueued, enqueue, queued_row,
}
use atomo.Jobs.Methods.{
  lease, grant, picked, among, lease_row, heartbeat, heartbeat_row, complete, complete_row,
  retry_row, dead_row, apply_outcome, fail_found, fail, expired, reclaim_row, reclaim_expired,
}
use atomo.Jobs.Calls.{
  Call, enqueues, leases, heartbeats, completes, fails, reclaims, after, step, run,
}
use atomo.Jobs.Rows.{
  update_where_none, find_where-none, any_where-none, any-update_where, any-update_where-All,
  any-append,
}

-- No row is leased under this token.
abbrev pub Stale : String → String → JobStore → Type 0
Stale id token s = any_where (holds id token) s.jobs ≡ false

-- A call that ends every lease under this token: the job is completed or failed with it, or the
-- leases have expired when they are reclaimed.
abbrev pub EndsLease : String → String → Call → JobStore → Type 0
EndsLease id token (completes id' token' result now) s = (id' ≡ id) × (token' ≡ token)
EndsLease id token (fails id' token' error retryable now) s = (id' ≡ id) × (token' ≡ token)
EndsLease id token (reclaims now) s =
    All (λ j. holds id token j ≡ true → expired now j ≡ true) s.jobs
EndsLease id token _ s = any_where (holds id token) s.jobs ≡ false

-- The database draws no token a second time.
abbrev pub DrawsAnother : String → String → Call → Type 0
DrawsAnother id token (leases queues capacity visibility draw locked now) = draw id ≢ token
DrawsAnother id token _ = Unit {0}

module _ (id token : String) where
  -- A worker that comes back with a stale token is turned away, and changes nothing.
  pub Stale-rejected :
      (s : JobStore) (visibility now : ℤ) (result error : String) (retryable : Bool)
      → Stale id token s
      → (heartbeat id token visibility now s ≡ (false, s))
        × (complete id token result now s ≡ (false, s))
        × (fail id token error retryable now s ≡ (none, s))
  unfolding heartbeat complete fail fail_found
  Stale-rejected s visibility now result error retryable stale = (
    ground (arith, update_where_none (holds id token) (heartbeat_row visibility now) s.jobs),
    ground (arith, update_where_none (holds id token) (complete_row result now) s.jobs),
    ground (arith, find_where-none (holds id token) s.jobs),
  )

  grant-Stale :
      (ps : List Job) (draw : String → String) (visibility now : ℤ) (s : JobStore)
      → draw id ≢ token
      → Stale id token s
      → Stale id token (after s (grant ps draw visibility now s))
  unfolding grant
  grant-Stale ps draw visibility now s other stale = ground (
    arith,
    any-update_where (holds id token) (among ps) (lease_row draw visibility now) s.jobs
        (λ j p h. ground (arith, eq_iff j.id id, eq_iff token (draw j.id))),
  )

  lease-Stale :
      (queues : List String) (capacity visibility : ℤ) (draw : String → String)
      → (locked : String → Bool) (now : ℤ) (s : JobStore) → draw id ≢ token
      → Stale id token s
      → Stale id token (after s (lease queues capacity visibility draw locked now s))
  unfolding lease
  lease-Stale queues (negsuc n) visibility draw locked now s other stale = stale
  lease-Stale queues (pos n) visibility draw locked now s other stale =
      grant-Stale (picked queues n locked now s.jobs) draw visibility now s other stale

  enqueue_at-Stale :
      (o : Option Job) (now : ℤ) (id' : String) (r : Request) (s : JobStore)
      → Stale id token s
      → Stale id token (after s (sent_if_created r (enqueue_at o now id' r s)))
  unfolding enqueue_at sent_if_created emit_enqueued any_where
  enqueue_at-Stale none now id' r s stale =
      ground (arith, any-append (holds id token) s.jobs (queued_row now id' r ∷ []))
  enqueue_at-Stale (some j) now id' r s stale = stale

  apply_outcome-Stale :
      (o : FailOutcome) (id' error : String) (now : ℤ) (s : JobStore)
      → Stale id token s
      → Stale id token (apply_outcome o id' error now s)
  unfolding apply_outcome
  apply_outcome-Stale (retry delay) id' error now s stale =
      any-update_where (holds id token) (has_id id') (retry_row error delay now) s.jobs
        (λ j p h. ground arith) stale
  apply_outcome-Stale dead_letter id' error now s stale =
      any-update_where (holds id token) (has_id id') (dead_row error now) s.jobs
        (λ j p h. ground arith) stale

  fail_found-Stale :
      (o : Option Job) (id' error : String) (retryable : Bool) (now : ℤ) (s : JobStore)
      → Stale id token s
      → Stale id token (fail_found o id' error retryable now s).1
  unfolding fail_found
  fail_found-Stale none id' error retryable now s stale = stale
  fail_found-Stale (some j) id' error retryable now s stale =
      apply_outcome-Stale _ id' error now s stale

  -- No call brings a stale token back, as long as a lease draws another one.
  step-Stale :
      (c : Call) (s : JobStore)
      → DrawsAnother id token c
      → Stale id token s
      → Stale id token (step c s)
  unfolding step enqueue enqueue_tx heartbeat complete fail reclaim_expired
  step-Stale (enqueues now id' r) s other stale =
      enqueue_at-Stale (find_where (conflicts r.queue r.idempotency_key) s.jobs) now id' r s stale
  step-Stale (leases queues capacity visibility draw locked now) s other stale =
      lease-Stale queues capacity visibility draw locked now s other stale
  step-Stale (heartbeats id' token' visibility now) s other stale =
      any-update_where (holds id token) (holds id' token') (heartbeat_row visibility now) s.jobs
        (λ j p h. ground arith) stale
  step-Stale (completes id' token' result now) s other stale = ground (
    arith,
    any-update_where (holds id token) (holds id' token') (complete_row result now) s.jobs
        (λ j p h. ground arith),
  )
  step-Stale (fails id' token' error retryable now) s other stale =
      fail_found-Stale (find_where (holds id' token') s.jobs) id' error retryable now s stale
  step-Stale (reclaims now) s other stale =
      any-update_where (holds id token) (expired now) (reclaim_row now) s.jobs
        (λ j p h. ground arith) stale

  run-Stale :
      (cs : List Call) (s : JobStore)
      → All (DrawsAnother id token) cs
      → Stale id token s
      → Stale id token (run cs s)
  unfolding run
  run-Stale [] s other stale = stale
  run-Stale (c ∷ cs) s other stale = run-Stale cs (step c s) other.1 (step-Stale c s other.0 stale)

  All-holders : (js : List Job) → All (λ j. holds id token j ≡ true → holds id token j ≡ true) js
  All-holders [] = tt
  All-holders (j ∷ js) = (λ h. h, All-holders js)

  All-by_id : (js : List Job) → All (λ j. holds id token j ≡ true → has_id id j ≡ true) js
  All-by_id [] = tt
  All-by_id (j ∷ js) = (λ h. ground arith, All-by_id js)

  complete-Stale :
      (result : String) (now : ℤ) (s : JobStore) → Stale id token (complete id token result now s).1
  unfolding complete
  complete-Stale result now s = ground (
    arith,
    any-update_where-All (holds id token) (holds id token) (complete_row result now) s.jobs
        (All-holders s.jobs) (λ j p. ground arith),
  )

  outcome-Stale :
      (o : FailOutcome) (error : String) (now : ℤ) (s : JobStore)
      → Stale id token (apply_outcome o id error now s)
  unfolding apply_outcome
  outcome-Stale (retry delay) error now s =
      any-update_where-All (holds id token) (has_id id) (retry_row error delay now) s.jobs
        (All-by_id s.jobs) (λ j p. ground arith)
  outcome-Stale dead_letter error now s =
      any-update_where-All (holds id token) (has_id id) (dead_row error now) s.jobs
        (All-by_id s.jobs) (λ j p. ground arith)

  fail-Stale :
      (o : Option Job) (error : String) (retryable : Bool) (now : ℤ) (s : JobStore)
      → find_where (holds id token) s.jobs ≡ o
      → Stale id token (fail_found o id error retryable now s).1
  unfolding fail_found
  fail-Stale none error retryable now s h = any_where-none (holds id token) s.jobs h
  fail-Stale (some j) error retryable now s h = outcome-Stale _ error now s

  reclaim-Stale :
      (now : ℤ) (s : JobStore)
      → All (λ j. holds id token j ≡ true → expired now j ≡ true) s.jobs
      → Stale id token (reclaim_expired now s).1
  unfolding reclaim_expired
  reclaim-Stale now s all =
      any-update_where-All (holds id token) (expired now) (reclaim_row now) s.jobs all
        (λ j p. ground arith)

ended-Stale :
    (id token : String) (c : Call) (s : JobStore)
    → DrawsAnother id token c
    → EndsLease id token c s
    → Stale id token (step c s)
unfolding step fail
ended-Stale id token (completes id' token' result now) s other (e, e') =
    subst (λ (i : String × String). Stale id token (complete i.0 i.1 result now s).1)
      (ap₂ (λ a b. (a, b)) (sym e) (sym e')) (complete-Stale id token result now s)
ended-Stale id token (fails id' token' error retryable now) s other (e, e') =
    subst (λ (i : String × String). Stale id token (fail i.0 i.1 error retryable now s).1)
      (ap₂ (λ a b. (a, b)) (sym e) (sym e'))
      (fail-Stale id token (find_where (holds id token) s.jobs) error retryable now s refl)
ended-Stale id token (reclaims now) s other all = reclaim-Stale id token now s all
ended-Stale id token (enqueues now id' r) s other stale =
    step-Stale id token (enqueues now id' r) s other stale
ended-Stale id token (leases queues capacity visibility draw locked now) s other stale =
    step-Stale id token (leases queues capacity visibility draw locked now) s other stale
ended-Stale id token (heartbeats id' token' visibility now) s other stale =
    step-Stale id token (heartbeats id' token' visibility now) s other stale

-- Once a job was completed or failed with a token, or every lease under the token had expired when
-- the expired leases were reclaimed, or no job was leased under it, then whatever calls follow, a
-- worker that comes back with the token is turned away and changes nothing, provided that the
-- database draws that token for the job no more.
pub lease_ended :
    (id token : String) (c : Call) (cs : List Call) (s : JobStore)
    → (visibility now : ℤ) (result error : String) (retryable : Bool) → EndsLease id token c s
    → All (DrawsAnother id token) (c ∷ cs)
    → let s' = run cs (step c s) in
      (heartbeat id token visibility now s' ≡ (false, s'))
      × (complete id token result now s' ≡ (false, s'))
      × (fail id token error retryable now s' ≡ (none, s'))
lease_ended id token c cs s visibility now result error retryable ends other =
    Stale-rejected id token (run cs (step c s)) visibility now result error retryable
      (run-Stale id token cs (step c s) other.1 (ended-Stale id token c s other.0 ends))

-- ===== src/Jobs/Holding.antt =====
-- Leases exclude one another (crates/atomo_server/src/jobs.rs): until it has expired, a lease is
-- undisturbed by the calls of everyone who does not hold its token.
use atomo.Prelude.{
  ℕ, String, Bool, true, false, ◌&&◌, Option, none, some, List, [], ◌∷◌, ◌≡◌, ◌≢◌, refl, sym, ap,
  subst, arith, str_eq, eq_iff, if◌then◌else◌, ◌∙◌, string_key, All,
}
use atomo.Prelude.Int.{ℤ, pos, negsuc, ltb_ℤ}
use atomo.Jobs.Retry.{FailOutcome, retry, dead_letter}
use atomo.Jobs.Store.{
  JobStatus, queued, leased, succeeded, dead, is_queued, is_leased, Job, JobStore, Request,
  update_where, any_where, find_where, same, has_id, holds, conflicts, enqueue_at, enqueue_tx,
  sent_if_created, emit_enqueued, enqueue, queued_row,
}
use atomo.Jobs.Methods.{
  lease, grant, picked, among, lease_row, heartbeat, heartbeat_row, complete, complete_row,
  retry_row, dead_row, apply_outcome, fail_found, fail, expired, reclaim_row, reclaim_expired, row,
}
use atomo.Jobs.Calls.{
  Call, enqueues, leases, heartbeats, completes, fails, reclaims, after, step, run,
}
use atomo.Jobs.Rows.{
  find-update_where, find-append, find_holds, updated, map_row, UniqueIds, find_unique,
}
use atomo.Jobs.Lifecycle.{picked_queued}
use atomo.Jobs.Lifecycle.Runs.{step-UniqueIds}

-- A call of someone who does not hold the token of the job's lease, and a reclaim at a time at which
-- the lease has not expired.
abbrev pub Foreign : String → String → ℤ → Call → Type 0
Foreign id token until (heartbeats id' token' visibility now) = id' ≡ id → token' ≢ token
Foreign id token until (completes id' token' result now) = id' ≡ id → token' ≢ token
Foreign id token until (fails id' token' error retryable now) = id' ≡ id → token' ≢ token
Foreign id token until (reclaims now) = ltb_ℤ until now ≡ false
Foreign id token until _ = Unit {0}

find-kept :
    (p : Job → Bool) (f : Job → Job) (id : String) (js : List Job) {j : Job}
    → ((k : Job) → (f k).id ≡ k.id)
    → find_where (has_id id) js ≡ some j
    → p j ≡ false
    → find_where (has_id id) (update_where p f js) ≡ some j
find-kept p f id js {j} keep h no_match =
    find-update_where (has_id id) p f js (λ k p. ap (λ i. str_eq i id) (keep k))
    ∙ ap (map_row (updated p f)) h
    ∙ ap (λ b. some (if b then f j else j)) no_match

module _ (id token : String) (s : JobStore) {j : Job} (u : UniqueIds s.jobs)
    (h : find_where (has_id id) s.jobs ≡ some j) (held : holds id token j ≡ true) where
  not_holder : (id' token' : String) → (id' ≡ id → token' ≢ token) → holds id' token' j ≡ false
  not_holder id' token' other = own j.lease_id (ground arith)
    where
      own :
          (o : Option String)
          → (same token o ≡ true)
          → (str_eq j.id id' && (same token' o && is_leased j.status)) ≡ false
      own none e = ground arith
      own (some t) e =
          ground (arith, eq_iff token t, eq_iff token' t, eq_iff j.id id, eq_iff j.id id')

  not_queued : (is_queued j.status ≡ true) → ⊥
  not_queued q = go j.status q (ground arith)
    where
      go : (t : JobStatus) → is_queued t ≡ true → is_leased t ≡ true → ⊥
      go queued a b = ground arith
      go leased a b = ground arith
      go succeeded a b = ground arith
      go dead a b = ground arith

  own_id : j.id ≡ id
  own_id = ground (arith, eq_iff j.id id)

  enqueue_at-held :
      (o : Option Job) (now : ℤ) (id' : String) (r : Request)
      → row id (after s (sent_if_created r (enqueue_at o now id' r s))) ≡ some j
  unfolding enqueue_at sent_if_created emit_enqueued row
  enqueue_at-held none now id' r =
      ground (arith, find-append (has_id id) s.jobs (queued_row now id' r ∷ []) {j = j})
  enqueue_at-held (some k) now id' r = h

  not_picked :
      (queues : List String) (n : ℕ) (locked : String → Bool) (now : ℤ)
      → among (picked queues n locked now s.jobs) j ≡ false
  not_picked queues n locked now = ground (
    arith,
    not_queued,
    picked_queued queues n locked now s.jobs j.id {j = j} u
        (subst (λ i. find_where (has_id i) s.jobs ≡ some j) (sym own_id) h),
  )

  grant-held :
      (queues : List String) (n : ℕ) (locked : String → Bool) (draw : String → String)
      → (visibility now : ℤ)
      → row id (after s (grant (picked queues n locked now s.jobs) draw visibility now s)) ≡ some j
  unfolding grant row
  grant-held queues n locked draw visibility now = ground (
    arith,
    find-kept (among (picked queues n locked now s.jobs)) (lease_row draw visibility now) id s.jobs
        (λ k. refl) h (not_picked queues n locked now),
  )

  lease-held :
      (queues : List String) (capacity visibility : ℤ) (draw : String → String)
      → (locked : String → Bool) (now : ℤ)
      → row id (after s (lease queues capacity visibility draw locked now s)) ≡ some j
  unfolding lease row
  lease-held queues (pos n) visibility draw locked now =
      grant-held queues n locked draw visibility now
  lease-held queues (negsuc n) visibility draw locked now = h

  apply_outcome-held :
      (o : FailOutcome) (id' error : String) (now : ℤ)
      → has_id id' j ≡ false
      → row id (apply_outcome o id' error now s) ≡ some j
  unfolding apply_outcome row
  apply_outcome-held (retry delay) id' error now other =
      find-kept (has_id id') (retry_row error delay now) id s.jobs (λ k. refl) h other
  apply_outcome-held dead_letter id' error now other =
      find-kept (has_id id') (dead_row error now) id s.jobs (λ k. refl) h other

  fail_found-held :
      (o : Option Job) (id' token' error : String) (retryable : Bool) (now : ℤ)
      → (id' ≡ id → token' ≢ token)
      → find_where (holds id' token') s.jobs ≡ o
      → row id (fail_found o id' error retryable now s).1 ≡ some j
  unfolding fail_found row
  fail_found-held none id' token' error retryable now other g = h
  fail_found-held (some k) id' token' error retryable now other g =
      apply_outcome-held _ id' error now (
        ground (
          arith,
          eq_iff j.id id',
          own_id,
          eq_iff k.id id',
          find_holds (holds id' token') s.jobs {j = k},
          find_unique (holds id' token') id s.jobs {j = k} {k = j} u,
          not_holder id' token' other,
        ))

  step-held : (c : Call) → Foreign id token j.visible_at c → row id (step c s) ≡ some j
  unfolding step enqueue enqueue_tx fail heartbeat complete reclaim_expired row
  step-held (enqueues now id' r) other =
      enqueue_at-held (find_where (conflicts r.queue r.idempotency_key) s.jobs) now id' r
  step-held (leases queues capacity visibility draw locked now) other =
      lease-held queues capacity visibility draw locked now
  step-held (heartbeats id' token' visibility now) other =
      find-kept (holds id' token') (heartbeat_row visibility now) id s.jobs (λ k. refl) h
        (not_holder id' token' other)
  step-held (completes id' token' result now) other = ground (
    arith,
    find-kept (holds id' token') (complete_row result now) id s.jobs (λ k. refl) h
        (not_holder id' token' other),
  )
  step-held (fails id' token' error retryable now) other =
      fail_found-held (find_where (holds id' token') s.jobs) id' token' error retryable now other
        refl
  step-held (reclaims now) other =
      find-kept (expired now) (reclaim_row now) id s.jobs (λ k. refl) h (ground arith)

pub run-held :
    (id token : String) (cs : List Call) (s : JobStore) {j : Job}
    → UniqueIds s.jobs
    → row id s ≡ some j
    → holds id token j ≡ true
    → All (Foreign id token j.visible_at) cs
    → row id (run cs s) ≡ some j
unfolding run row
run-held id token [] s u h held others = h
run-held id token (c ∷ cs) s u h held others =
    run-held id token cs (step c s) (step-UniqueIds c s u)
      (step-held id token s u h held c others.0) held others.1

holder_found :
    (id token : String) (js : List Job) {j : Job}
    → find_where (has_id id) js ≡ some j
    → holds id token j ≡ true
    → any_where (holds id token) js ≡ true
unfolding find_where any_where
holder_found id token [] h held = ground arith
holder_found id token (i ∷ js) {j} h held = ground (arith, holder_found id token js {j = j})

-- In a table whose ids are unique, a job that is leased under a token stays as it is through any
-- calls of others and reclaims before the lease expires, and its holder then completes it: the call
-- is accepted, and the job has succeeded with the holder's result, its token gone.
pub lease_held :
    (id token result : String) (now : ℤ) (cs : List Call) (s : JobStore) {j : Job}
    → UniqueIds s.jobs
    → row id s ≡ some j
    → holds id token j ≡ true
    → All (Foreign id token j.visible_at) cs
    → let s' = run cs s in
      (row id s' ≡ some j)
      × ((complete id token result now s').0 ≡ true)
      × (row id (complete id token result now s').1 ≡ some (complete_row result now j))
unfolding complete row
lease_held id token result now cs s {j} u h held others =
    let kept = run-held id token cs s u h held others in
    (
      kept,
      holder_found id token (run cs s).jobs kept held,
      ground (
        arith,
        holder_found id token (run cs s).jobs {j = j},
        find-update_where (has_id id) (holds id token) (complete_row result now) (run cs s).jobs
            (λ k p. refl),
      ),
    )

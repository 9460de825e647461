-- ===== src/Jobs/Lifecycle/Moves.antt =====
-- Every call moves a row as the state machine allows (crates/atomo_server/src/jobs.rs).
use atomo.Prelude.{
  ℕ, String, Bool, true, Option, none, some, List, [], ◌∷◌, ◌≡◌, refl, sym, subst, arith, str_eq,
  eq_iff, string_key,
}
use atomo.Prelude.Int.{ℤ, pos, negsuc}
use atomo.Jobs.Retry.{FailOutcome, retry, dead_letter}
use atomo.Jobs.Store.{
  is_leased, Job, JobStore, Request, find_where, has_id, holds, conflicts, enqueue_at, enqueue_tx,
  sent_if_created, emit_enqueued, enqueue, queued_row,
}
use atomo.Jobs.Methods.{
  lease, grant, picked, among, lease_row, heartbeat, heartbeat_row, complete, complete_row,
  retry_row, dead_row, apply_outcome, fail_found, fail, expired, reclaim_row, reclaim_expired, row,
}
use atomo.Jobs.Calls.{Call, enqueues, leases, heartbeats, completes, fails, reclaims, after, step}
use atomo.Jobs.Rows.{find-append, find_holds, UniqueIds, find_unique}
use atomo.Jobs.Lifecycle.{
  Moves, Follows, same_row, update-Moves, leased-Moves, queued-Moves, picked_queued,
}

module _ (id : String) (s : JobStore) {j : Job} (h : find_where (has_id id) s.jobs ≡ some j) where
  enqueue_at-Moves :
      (o : Option Job) (now : ℤ) (id' : String) (r : Request)
      → Follows Moves j (row id (after s (sent_if_created r (enqueue_at o now id' r s))))
  unfolding enqueue_at sent_if_created emit_enqueued row
  enqueue_at-Moves none now id' r =
      ground (arith, find-append (has_id id) s.jobs (queued_row now id' r ∷ []) {j = j}, same_row j)
  enqueue_at-Moves (some k) now id' r = ground (arith, same_row j)

  heartbeat-Moves :
      (id' token : String) (visibility now : ℤ)
      → Follows Moves j (row id (heartbeat id' token visibility now s).1)
  unfolding heartbeat row
  heartbeat-Moves id' token visibility now =
      update-Moves (holds id' token) (heartbeat_row visibility now) id s.jobs (λ k. refl) h
        (λ p.
          leased-Moves j (heartbeat_row visibility now j) (ground arith) (omega arith) refl refl)

  complete-Moves :
      (id' token result : String) (now : ℤ)
      → Follows Moves j (row id (complete id' token result now s).1)
  unfolding complete row
  complete-Moves id' token result now = ground (
    arith,
    update-Moves (holds id' token) (complete_row result now) id s.jobs (λ k. refl) h
        (λ p. leased-Moves j (complete_row result now j) (ground arith) (omega arith) refl refl),
  )

  reclaim-Moves : (now : ℤ) → Follows Moves j (row id (reclaim_expired now s).1)
  unfolding reclaim_expired row
  reclaim-Moves now =
      update-Moves (expired now) (reclaim_row now) id s.jobs (λ k. refl) h
        (λ p. leased-Moves j (reclaim_row now j) (ground arith) (omega arith) refl refl)

  module _ (u : UniqueIds s.jobs) where
    grant-Moves :
        (queues : List String) (n : ℕ) (locked : String → Bool) (draw : String → String)
        → (visibility now : ℤ)
        → Follows Moves j
            (row id (after s (grant (picked queues n locked now s.jobs) draw visibility now s)))
    unfolding grant row
    grant-Moves queues n locked draw visibility now =
        let ps = picked queues n locked now s.jobs in
        ground (
          arith,
          same_row j,
          update-Moves (among ps) (lease_row draw visibility now) id s.jobs (λ k. refl) h
              (λ p.
                queued-Moves j (lease_row draw visibility now j)
                  (picked_queued queues n locked now s.jobs j.id u
                    (subst (λ i. find_where (has_id i) s.jobs ≡ some j)
                      (sym (ground (arith, eq_iff j.id id, find_holds (has_id id) s.jobs {j = j})))
                      h)
                    p)
                  refl (omega arith) refl refl),
        )

    lease-Moves :
        (queues : List String) (capacity visibility : ℤ) (draw : String → String)
        → (locked : String → Bool) (now : ℤ)
        → Follows Moves j (row id (after s (lease queues capacity visibility draw locked now s)))
    unfolding lease row
    lease-Moves queues (pos n) visibility draw locked now =
        grant-Moves queues n locked draw visibility now
    lease-Moves queues (negsuc n) visibility draw locked now = ground (arith, same_row j)

    failed_leased :
        (id' token : String) {k : Job}
        → find_where (holds id' token) s.jobs ≡ some k
        → str_eq j.id id' ≡ true
        → is_leased j.status ≡ true
    failed_leased id' token {k} g p = ground (
      arith,
      eq_iff j.id id,
      eq_iff j.id id',
      eq_iff k.id id',
      find_holds (has_id id) s.jobs {j = j},
      find_holds (holds id' token) s.jobs {j = k},
      find_unique (holds id' token) id s.jobs {j = k} {k = j} u,
    )

    apply_outcome-Moves :
        (o : FailOutcome) (id' error : String) (now : ℤ)
        → (str_eq j.id id' ≡ true → is_leased j.status ≡ true)
        → Follows Moves j (row id (apply_outcome o id' error now s))
    unfolding apply_outcome row
    apply_outcome-Moves (retry delay) id' error now was =
        update-Moves (has_id id') (retry_row error delay now) id s.jobs (λ k. refl) h
          (λ p. leased-Moves j (retry_row error delay now j) (was p) (omega arith) refl refl)
    apply_outcome-Moves dead_letter id' error now was =
        update-Moves (has_id id') (dead_row error now) id s.jobs (λ k. refl) h
          (λ p. leased-Moves j (dead_row error now j) (was p) (omega arith) refl refl)

    fail_found-Moves :
        (o : Option Job) (id' token error : String) (retryable : Bool) (now : ℤ)
        → find_where (holds id' token) s.jobs ≡ o
        → Follows Moves j (row id (fail_found o id' error retryable now s).1)
    unfolding fail_found row
    fail_found-Moves none id' token error retryable now g = ground (arith, same_row j)
    fail_found-Moves (some k) id' token error retryable now g =
        apply_outcome-Moves _ id' error now (failed_leased id' token g)

    -- A row that is found is still there after any call, and has moved as the state machine allows.
    pub step-Moves : (c : Call) → Follows Moves j (row id (step c s))
    unfolding step enqueue enqueue_tx fail
    step-Moves (enqueues now id' r) =
        enqueue_at-Moves (find_where (conflicts r.queue r.idempotency_key) s.jobs) now id' r
    step-Moves (leases queues capacity visibility draw locked now) =
        lease-Moves queues capacity visibility draw locked now
    step-Moves (heartbeats id' token visibility now) = heartbeat-Moves id' token visibility now
    step-Moves (completes id' token result now) = complete-Moves id' token result now
    step-Moves (fails id' token error retryable now) =
        fail_found-Moves (find_where (holds id' token) s.jobs) id' token error retryable now refl
    step-Moves (reclaims now) = reclaim-Moves now

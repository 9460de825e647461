-- ===== src/Jobs/Keys.antt =====
-- Idempotency keys (crates/atomo_server/src/jobs.rs): a job that is enqueued again under the key it
-- was enqueued with is not created again.
use atomo.Prelude.{
  String, Bool, true, false, Option, none, some, List, [], ◌∷◌, ◌++◌, ◌≡◌, refl, sym, ap, ap₂,
  subst, arith, eq_iff, if◌then◌else◌, ◌∙◌,
}
use atomo.Prelude.Int.{ℤ, pos, negsuc}
use atomo.Jobs.Retry.{FailOutcome, retry, dead_letter}
use atomo.Jobs.Store.{
  Job, JobStore, Request, Result, ok, err, update_where, find_where, same, has_id, holds, conflicts,
  enqueue_at, enqueue_tx, sent_if_created, emit_enqueued, enqueue, queued_row,
}
use atomo.Jobs.Methods.{
  lease, grant, picked, among, lease_row, heartbeat, heartbeat_row, complete, complete_row,
  retry_row, dead_row, apply_outcome, fail_found, fail, expired, reclaim_row, reclaim_expired,
}
use atomo.Jobs.Calls.{
  Call, enqueues, leases, heartbeats, completes, fails, reclaims, after, step, run,
}
use atomo.Jobs.Rows.{find-update_where, find-append, updated, map_row}

-- The row that a key leads to has this id.
abbrev pub LeadsTo : String → Option Job → Type 0
LeadsTo id none = ⊥
LeadsTo id (some j) = j.id ≡ id

module _ (queue : String) (key : String) where
  find_key-update :
      (p : Job → Bool) (f : Job → Job) (id : String) (js : List Job)
      → ((j : Job) → conflicts queue (some key) (f j) ≡ conflicts queue (some key) j)
      → ((j : Job) → (f j).id ≡ j.id)
      → LeadsTo id (find_where (conflicts queue (some key)) js)
      → LeadsTo id (find_where (conflicts queue (some key)) (update_where p f js))
  find_key-update p f id js kept kept_id h =
      subst (LeadsTo id)
        (sym (find-update_where (conflicts queue (some key)) p f js (λ j q. kept j)))
        (map_row-LeadsTo (find_where (conflicts queue (some key)) js) h)
    where
      map_row-LeadsTo : (o : Option Job) → LeadsTo id o → LeadsTo id (map_row (updated p f) o)
      map_row-LeadsTo none l = l
      map_row-LeadsTo (some j) l = updated_id (p j) j l
        where
          updated_id : (b : Bool) (j : Job) → j.id ≡ id → (if b then f j else j).id ≡ id
          updated_id true j l = kept_id j ∙ l
          updated_id false j l = l

  module _ (id : String) (s : JobStore)
      (h : LeadsTo id (find_where (conflicts queue (some key)) s.jobs)) where
    enqueue_at-LeadsTo :
        (o : Option Job) (now : ℤ) (id' : String) (r : Request)
        → LeadsTo id (
            find_where
              (conflicts queue (some key))
              (after s (sent_if_created r (enqueue_at o now id' r s))).jobs)
    unfolding enqueue_at sent_if_created emit_enqueued
    enqueue_at-LeadsTo none now id' r =
        ground (arith, append-LeadsTo s.jobs (queued_row now id' r) h)
      where
        append-LeadsTo :
            (js : List Job) (k : Job)
            → LeadsTo id (find_where (conflicts queue (some key)) js)
            → LeadsTo id (find_where (conflicts queue (some key)) (js ++ k ∷ []))
        append-LeadsTo js k l = appended (find_where (conflicts queue (some key)) js) l refl
          where
            appended :
                (o : Option Job)
                → LeadsTo id o
                → find_where (conflicts queue (some key)) js ≡ o
                → LeadsTo id (find_where (conflicts queue (some key)) (js ++ k ∷ []))
            appended none l g = ground arith
            appended (some j) l g =
                subst (LeadsTo id)
                  (sym (find-append (conflicts queue (some key)) js (k ∷ []) {j = j} g)) l
    enqueue_at-LeadsTo (some k) now id' r = h

    grant-LeadsTo :
        (ps : List Job) (draw : String → String) (visibility now : ℤ)
        → LeadsTo id (
            find_where (conflicts queue (some key)) (after s (grant ps draw visibility now s)).jobs)
    unfolding grant
    grant-LeadsTo ps draw visibility now = ground (
      arith,
      find_key-update (among ps) (lease_row draw visibility now) id s.jobs (λ j. refl) (λ j. refl)
          h,
    )

    lease-LeadsTo :
        (queues : List String) (capacity visibility : ℤ) (draw : String → String)
        → (locked : String → Bool) (now : ℤ)
        → LeadsTo id (
            find_where
              (conflicts queue (some key))
              (after s (lease queues capacity visibility draw locked now s)).jobs)
    unfolding lease
    lease-LeadsTo queues (pos n) visibility draw locked now =
        grant-LeadsTo (picked queues n locked now s.jobs) draw visibility now
    lease-LeadsTo queues (negsuc n) visibility draw locked now = h

    outcome-LeadsTo :
        (o : FailOutcome) (id' error : String) (now : ℤ)
        → LeadsTo id
            (find_where (conflicts queue (some key)) (apply_outcome o id' error now s).jobs)
    unfolding apply_outcome
    outcome-LeadsTo (retry delay) id' error now =
        find_key-update (has_id id') (retry_row error delay now) id s.jobs (λ j. refl) (λ j. refl) h
    outcome-LeadsTo dead_letter id' error now =
        find_key-update (has_id id') (dead_row error now) id s.jobs (λ j. refl) (λ j. refl) h

    fail_found-LeadsTo :
        (o : Option Job) (id' error : String) (retryable : Bool) (now : ℤ)
        → LeadsTo id (
            find_where (conflicts queue (some key)) (fail_found o id' error retryable now s).1.jobs)
    unfolding fail_found
    fail_found-LeadsTo none id' error retryable now = h
    fail_found-LeadsTo (some k) id' error retryable now = outcome-LeadsTo _ id' error now

    step-LeadsTo : (c : Call) → LeadsTo id (find_where (conflicts queue (some key)) (step c s).jobs)
    unfolding step enqueue enqueue_tx fail heartbeat complete reclaim_expired
    step-LeadsTo (enqueues now id' r) =
        enqueue_at-LeadsTo (find_where (conflicts r.queue r.idempotency_key) s.jobs) now id' r
    step-LeadsTo (leases queues capacity visibility draw locked now) =
        lease-LeadsTo queues capacity visibility draw locked now
    step-LeadsTo (heartbeats id' token visibility now) =
        find_key-update (holds id' token) (heartbeat_row visibility now) id s.jobs (λ j. refl)
          (λ j. refl) h
    step-LeadsTo (completes id' token result now) = ground (
      arith,
      find_key-update (holds id' token) (complete_row result now) id s.jobs (λ j. refl) (λ j. refl)
          h,
    )
    step-LeadsTo (fails id' token error retryable now) =
        fail_found-LeadsTo (find_where (holds id' token) s.jobs) id' error retryable now
    step-LeadsTo (reclaims now) =
        find_key-update (expired now) (reclaim_row now) id s.jobs (λ j. refl) (λ j. refl) h

  run-LeadsTo :
      (id : String) (cs : List Call) (s : JobStore)
      → LeadsTo id (find_where (conflicts queue (some key)) s.jobs)
      → LeadsTo id (find_where (conflicts queue (some key)) (run cs s).jobs)
  unfolding run
  run-LeadsTo id [] s h = h
  run-LeadsTo id (c ∷ cs) s h = run-LeadsTo id cs (step c s) (step-LeadsTo id s h c)

  -- The key leads to the job that an enqueue under it answers.
  AnswerLeads : Result (String × JobStore) → Type 0
  AnswerLeads (err e) = Unit
  AnswerLeads (ok (id, s)) = LeadsTo id (find_where (conflicts queue (some key)) s.jobs)

  find-append_new :
      (js : List Job) (j : Job)
      → find_where (conflicts queue (some key)) js ≡ none
      → conflicts queue (some key) j ≡ true
      → find_where (conflicts queue (some key)) (js ++ j ∷ []) ≡ some j
  unfolding find_where
  find-append_new [] j g c = ground arith
  find-append_new (i ∷ js) j g c = ground (arith, find-append_new js j)

  key_matches : (o : Option String) → o ≡ some key → same key o ≡ true
  key_matches none k = ground arith
  key_matches (some l) k = ground (arith, eq_iff key l)

  enqueue_at-AnswerLeads :
      (o : Option Job) (now : ℤ) (id : String) (r : Request) (s : JobStore)
      → find_where (conflicts queue (some key)) s.jobs ≡ o
      → r.queue ≡ queue
      → r.idempotency_key ≡ some key
      → AnswerLeads (sent_if_created r (enqueue_at o now id r s))
  unfolding enqueue_at sent_if_created emit_enqueued AnswerLeads
  enqueue_at-AnswerLeads none now id r s g q k = ground (
    arith,
    eq_iff r.queue queue,
    key_matches r.idempotency_key,
    append_leads (
        find-append_new s.jobs (queued_row now id r) g
          (ground (arith, eq_iff r.queue queue, key_matches r.idempotency_key))),
  )
    where
      append_leads : {o : Option Job} → o ≡ some (queued_row now id r) → LeadsTo id o
      append_leads e = subst (LeadsTo id) (sym e) refl
  enqueue_at-AnswerLeads (some j) now id r s g q k = subst (LeadsTo j.id) (sym g) refl

  enqueue-AnswerLeads :
      (now : ℤ) (id : String) (r : Request) (s : JobStore)
      → r.queue ≡ queue
      → r.idempotency_key ≡ some key
      → AnswerLeads (enqueue now id r s)
  unfolding enqueue enqueue_tx
  enqueue-AnswerLeads now id r s q k =
      enqueue_at-AnswerLeads (find_where (conflicts r.queue r.idempotency_key) s.jobs) now id r s
        (ap₂ (λ a b. find_where (conflicts a b) s.jobs) (sym q) (sym k)) q k

  enqueue_at_again :
      (o : Option Job) (now : ℤ) (id id' : String) (r : Request) (s : JobStore)
      → LeadsTo id' o
      → sent_if_created r (enqueue_at o now id r s) ≡ ok (id', s)
  unfolding enqueue_at sent_if_created
  enqueue_at_again none now id id' r s l = ground arith
  enqueue_at_again (some j) now id id' r s l = ap (λ i. ok (i, s)) l

  enqueue_again :
      (now : ℤ) (id id' : String) (r : Request) (s : JobStore)
      → r.queue ≡ queue
      → r.idempotency_key ≡ some key
      → LeadsTo id' (find_where (conflicts queue (some key)) s.jobs)
      → enqueue now id r s ≡ ok (id', s)
  unfolding enqueue enqueue_tx
  enqueue_again now id id' r s q k l =
      enqueue_at_again (find_where (conflicts r.queue r.idempotency_key) s.jobs) now id id' r s
        (subst (LeadsTo id') (ap₂ (λ a b. find_where (conflicts a b) s.jobs) (sym q) (sym k)) l)

-- When a job was enqueued under a key, then after any calls another enqueue into its queue under the
-- key, whatever else it asks for, answers the same job and leaves the store as it is: no row is added
-- and no event is sent.
pub enqueued_once :
    (queue key : String) (now now' : ℤ) (id id' found : String) (r r' : Request) (cs : List Call)
    → (s s' : JobStore) → r.queue ≡ queue
    → r.idempotency_key ≡ some key
    → r'.queue ≡ queue
    → r'.idempotency_key ≡ some key
    → enqueue now id r s ≡ ok (found, s')
    → enqueue now' id' r' (run cs s') ≡ ok (found, run cs s')
unfolding AnswerLeads
enqueued_once queue key now now' id id' found r r' cs s s' q k q' k' e =
    enqueue_again queue key now' id' found r' (run cs s') q' k' (
      run-LeadsTo queue key found cs s'
        (subst (AnswerLeads queue key) e (enqueue-AnswerLeads queue key now id r s q k)))

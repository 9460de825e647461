-- ===== src/Jobs/Lifecycle/Runs.antt =====
-- What calls, however many, keep of a row (crates/atomo_server/src/jobs.rs).
use atomo.Prelude.{
  String, Bool, true, ◌≤◌, Option, none, some, List, [], ◌∷◌, ◌≡◌, refl, sym, ap, subst, arith, ◌∙◌,
  string_key,
}
use atomo.Prelude.Int.{ℤ, pos, negsuc}
use atomo.Jobs.Retry.{FailOutcome, retry, dead_letter}
use atomo.Jobs.Store.{
  Job, JobStore, Request, find_where, has_id, holds, conflicts, enqueue_at, enqueue_tx,
  sent_if_created, emit_enqueued, enqueue, queued_row,
}
use atomo.Jobs.Methods.{
  lease, grant, picked, among, lease_row, heartbeat, heartbeat_row, complete, complete_row,
  retry_row, dead_row, apply_outcome, fail_found, fail, expired, reclaim_row, reclaim_expired, row,
}
use atomo.Jobs.Calls.{
  Call, enqueues, leases, heartbeats, completes, fails, reclaims, after, step, run,
}
use atomo.Jobs.Rows.{UniqueIds, update_where-UniqueIds, append-UniqueIds}
use atomo.Jobs.Lifecycle.{allowed, is_terminal, Moves, Follows}
use atomo.Jobs.Lifecycle.Moves.{step-Moves}

enqueue_at-UniqueIds :
    (o : Option Job) (now : ℤ) (id : String) (r : Request) (s : JobStore)
    → UniqueIds s.jobs
    → UniqueIds (after s (sent_if_created r (enqueue_at o now id r s))).jobs
unfolding enqueue_at sent_if_created emit_enqueued
enqueue_at-UniqueIds none now id r s u =
    ground (arith, append-UniqueIds s.jobs (queued_row now id r))
enqueue_at-UniqueIds (some k) now id r s u = u

lease-UniqueIds :
    (queues : List String) (capacity visibility : ℤ) (draw : String → String)
    → (locked : String → Bool) (now : ℤ) (s : JobStore) → UniqueIds s.jobs
    → UniqueIds (after s (lease queues capacity visibility draw locked now s)).jobs
unfolding lease grant
lease-UniqueIds queues (pos n) visibility draw locked now s u = ground (
  arith,
  update_where-UniqueIds (among (picked queues n locked now s.jobs)) (lease_row draw visibility now)
      s.jobs (λ k. refl),
)
lease-UniqueIds queues (negsuc n) visibility draw locked now s u = u

outcome-UniqueIds :
    (o : FailOutcome) (id error : String) (now : ℤ) (s : JobStore)
    → UniqueIds s.jobs
    → UniqueIds (apply_outcome o id error now s).jobs
unfolding apply_outcome
outcome-UniqueIds (retry delay) id error now s u =
    update_where-UniqueIds (has_id id) (retry_row error delay now) s.jobs (λ k. refl) u
outcome-UniqueIds dead_letter id error now s u =
    update_where-UniqueIds (has_id id) (dead_row error now) s.jobs (λ k. refl) u

fail_found-UniqueIds :
    (o : Option Job) (id error : String) (retryable : Bool) (now : ℤ) (s : JobStore)
    → UniqueIds s.jobs
    → UniqueIds (fail_found o id error retryable now s).1.jobs
unfolding fail_found
fail_found-UniqueIds none id error retryable now s u = u
fail_found-UniqueIds (some k) id error retryable now s u = outcome-UniqueIds _ id error now s u

-- In a table whose ids are unique, they are unique after every call.
pub step-UniqueIds : (c : Call) (s : JobStore) → UniqueIds s.jobs → UniqueIds (step c s).jobs
unfolding step enqueue enqueue_tx heartbeat complete fail reclaim_expired
step-UniqueIds (enqueues now id r) s u =
    enqueue_at-UniqueIds (find_where (conflicts r.queue r.idempotency_key) s.jobs) now id r s u
step-UniqueIds (leases queues capacity visibility draw locked now) s u =
    lease-UniqueIds queues capacity visibility draw locked now s u
step-UniqueIds (heartbeats id token visibility now) s u =
    update_where-UniqueIds (holds id token) (heartbeat_row visibility now) s.jobs (λ k. refl) u
step-UniqueIds (completes id token result now) s u =
    ground
      (arith, update_where-UniqueIds (holds id token) (complete_row result now) s.jobs (λ k. refl))
step-UniqueIds (fails id token error retryable now) s u =
    fail_found-UniqueIds (find_where (holds id token) s.jobs) id error retryable now s u
step-UniqueIds (reclaims now) s u =
    update_where-UniqueIds (expired now) (reclaim_row now) s.jobs (λ k. refl) u

-- What a row may become in any number of calls.
abbrev pub Outlives : Job → Job → Type 0
Outlives j j' =
    (j.attempts ≤ j'.attempts)
    × (is_terminal j.status ≡ true → j' ≡ j)
    × (j'.payload ≡ j.payload)
    × (j'.idempotency_key ≡ j.idempotency_key)

Outlives-Moves : {i j k : Job} → Moves i j → Outlives j k → Outlives i k
Outlives-Moves {i} {j} {k} m o = (
  omega (arith, m.1, o.0),
  λ t. o.1 (subst (λ (l : Job). is_terminal l.status ≡ true) (sym (m.2 t)) t) ∙ m.2 t,
  o.2 ∙ m.3,
  o.3 ∙ m.4,
)

Follows-Outlives :
    (id : String) (cs : List Call) (s : JobStore) (i : Job) (o : Option Job)
    → row id s ≡ o
    → Follows Moves i o
    → ((j : Job) → row id s ≡ some j → Follows Outlives j (row id (run cs s)))
    → Follows Outlives i (row id (run cs s))
Follows-Outlives id cs s i none h m rest = ground arith
Follows-Outlives id cs s i (some j) h m rest = compose (row id (run cs s)) (rest j h)
  where
    compose : (o : Option Job) → Follows Outlives j o → Follows Outlives i o
    compose none f = f
    compose (some k) f = Outlives-Moves m f

run-Outlives :
    (id : String) (cs : List Call) (s : JobStore) {j : Job}
    → UniqueIds s.jobs
    → row id s ≡ some j
    → Follows Outlives j (row id (run cs s))
unfolding run row
run-Outlives id [] s {j} u h = ground (arith, outlives_refl)
  where
    outlives_refl : Outlives j j
    outlives_refl = (omega arith, λ t. refl, refl, refl)
run-Outlives id (c ∷ cs) s {j} u h =
    Follows-Outlives id cs (step c s) j (row id (step c s)) refl (step-Moves id s h u c)
      (λ k g. run-Outlives id cs (step c s) (step-UniqueIds c s u) g)

Follows-mono :
    (R S : Job → Job → Type 0) (j : Job) (o : Option Job)
    → ((k : Job) → R j k → S j k)
    → Follows R j o
    → Follows S j o
Follows-mono R S j none le f = f
Follows-mono R S j (some k) le f = le k f

-- What a call leaves of a row: its status moves as the state machine allows, its attempts do not
-- fall, and its payload and its key are what they were.
abbrev pub Advances : Job → Job → Type 0
Advances j j' =
    (allowed j.status j'.status ≡ true)
    × (j.attempts ≤ j'.attempts)
    × (j'.payload ≡ j.payload)
    × (j'.idempotency_key ≡ j.idempotency_key)

-- In a table whose ids are unique, a row that is there is there after any call; its status has moved
-- as the state machine allows, its attempts have not fallen, and its payload and its key are what
-- they were.
pub step-Advances :
    (id : String) (c : Call) (s : JobStore) {j : Job}
    → UniqueIds s.jobs
    → row id s ≡ some j
    → Follows Advances j (row id (step c s))
unfolding row
step-Advances id c s {j} u h =
    Follows-mono Moves Advances j (find_where (has_id id) (step c s).jobs)
      (λ k m. (m.0, m.1, m.3, m.4)) (step-Moves id s h u c)

-- In a table whose ids are unique, a job that has succeeded or is dead stays exactly as it is,
-- whatever calls follow.
pub run_terminal :
    (id : String) (cs : List Call) (s : JobStore) {j : Job}
    → UniqueIds s.jobs
    → row id s ≡ some j
    → is_terminal j.status ≡ true
    → row id (run cs s) ≡ some j
run_terminal id cs s {j} u h t = same_row_found (row id (run cs s)) (run-Outlives id cs s u h)
  where
    same_row_found : (o : Option Job) → Follows Outlives j o → o ≡ some j
    same_row_found none f = ground arith
    same_row_found (some k) f = ap some (f.1 t)

-- What any number of calls leave of a row.
abbrev pub Persists : Job → Job → Type 0
Persists j j' =
    (j.attempts ≤ j'.attempts) × (j'.payload ≡ j.payload) × (j'.idempotency_key ≡ j.idempotency_key)

-- In a table whose ids are unique, a row that is there stays there whatever calls follow: its attempts
-- never fall, and its payload and its key do not change.
pub run-Persists :
    (id : String) (cs : List Call) (s : JobStore) {j : Job}
    → UniqueIds s.jobs
    → row id s ≡ some j
    → Follows Persists j (row id (run cs s))
run-Persists id cs s {j} u h =
    Follows-mono Outlives Persists j (row id (run cs s)) (λ k o. (o.0, o.2, o.3))
      (run-Outlives id cs s u h)

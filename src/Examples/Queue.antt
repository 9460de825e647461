-- ===== src/Examples/Queue.antt =====
-- A queue with two jobs (crates/atomo_server/src/jobs.rs).
use atomo.Prelude.{
  ◌*◌, ◌-◌, ◌^◌, min, true, false, none, some, List, [], ◌∷◌, ◌++◌, ◌≡◌, refl, arith, eq_iff,
  filter, length, All, string_key,
}
use atomo.Prelude.Int.{pos, ◌+ℤ◌}
use mathlib.Core.List.{Perm}
use atomo.Jobs.Retry.{backoff_secs}
use atomo.Jobs.Retry.Bounds.{backoff_secs_lem}
use atomo.Jobs.Store.{
  Job, JobStore, Request, ok, any_where, find_where, enqueue, enqueue_tx, enqueue_at,
  sent_if_created, queued_row,
}
use atomo.Jobs.Methods.{picked, heartbeat, complete, complete_row, fail, row, lease_row}
use atomo.Jobs.Calls.{Call, enqueues, leases, completes, fails, reclaims, step, run}
use atomo.Jobs.Rows.{UniqueIds}
use atomo.Jobs.Tokens.{lease_ended}
use atomo.Jobs.Retry.{retry}
use atomo.Jobs.Failing.{failed_row, failed_event, fail_lem}
use atomo.Jobs.Holding.{lease_held}
use atomo.Jobs.Keys.{enqueued_once}
use atomo.Jobs.Dispatch.{may_pick, IsAhead, InOrder, picked_lem}
use atomo.Jobs.Lifecycle.{Follows}
use atomo.Jobs.Lifecycle.Runs.{Advances, step-Advances, run_terminal}

abbrev request : Request
request = record {
  queue = "mail";
  kind = "send";
  payload = "{}";
  idempotency_key = some "k";
  max_attempts = pos 3;
  priority = pos 0;
  tenant_id = none;
}

abbrev store : List Job → JobStore
store js = record { jobs = js; sent = []; base_backoff_secs = 5; cap_backoff_secs = 3600 }

abbrev job1 : Job
job1 = lease_row (λ id. "t1") (pos 30) (pos 0) (queued_row (pos 0) "j1" request)

abbrev job2 : Job
job2 = record (queued_row (pos 0) "j2" request) { idempotency_key = none }

abbrev jobs : JobStore
jobs = store (job1 ∷ job2 ∷ [])

jobs-UniqueIds : UniqueIds jobs.jobs
unfolding any_where
jobs-UniqueIds = (refl, (refl, tt))

abbrev others : List Call
others =
    leases ("mail" ∷ []) (pos 5) (pos 30) (λ id. "t2") (λ id. false) (pos 10)
    ∷ completes "j1" "t0" "{}" (pos 11)
    ∷ reclaims (pos 12)
    ∷ []

job1_found : row "j1" jobs ≡ some job1
unfolding row find_where
job1_found = refl

lease_held_example :
    (row "j1" (run others jobs) ≡ some job1)
    × ((complete "j1" "t1" "done" (pos 20) (run others jobs)).0 ≡ true)
    × (row "j1" (complete "j1" "t1" "done" (pos 20) (run others jobs)).1
        ≡ some (complete_row "done" (pos 20) job1))
unfolding ◌+ℤ◌
lease_held_example =
    lease_held "j1" "t1" "done" (pos 20) others jobs jobs-UniqueIds job1_found refl
      (tt, ((λ e. ground (arith, eq_iff "t0" "t1")), (refl, tt)))

lease_ended_example :
    let s = run others (step (completes "j1" "t1" "{}" (pos 5)) jobs) in
    (heartbeat "j1" "t1" (pos 30) (pos 21) s ≡ (false, s))
    × (complete "j1" "t1" "late" (pos 21) s ≡ (false, s))
    × (fail "j1" "t1" "late" true (pos 21) s ≡ (none, s))
lease_ended_example =
    lease_ended "j1" "t1" (completes "j1" "t1" "{}" (pos 5)) others jobs (pos 30) (pos 21) "late"
      "late" true (refl, refl) (tt, ((ground (arith, eq_iff "t2" "t1")), (tt, (tt, tt))))

abbrev enqueued : JobStore
enqueued = step (enqueues (pos 0) "j1" request) (store [])

first_enqueue : enqueue (pos 0) "j1" request (store []) ≡ ok ("j1", enqueued)
unfolding step enqueue enqueue_tx enqueue_at sent_if_created find_where any_where
first_enqueue = refl

enqueued_once_example :
    enqueue (pos 40) "j9" request (run others enqueued) ≡ ok ("j1", run others enqueued)
enqueued_once_example =
    enqueued_once "mail" "k" (pos 0) (pos 40) "j1" "j9" "j1" request request others (store [])
      enqueued refl refl refl refl first_enqueue

abbrev done : JobStore
done = store (complete_row "done" (pos 5) job1 ∷ job2 ∷ [])

done-UniqueIds : UniqueIds done.jobs
unfolding any_where
done-UniqueIds = (refl, (refl, tt))

done_found : row "j1" done ≡ some (complete_row "done" (pos 5) job1)
unfolding row find_where
done_found = refl

run_terminal_example : row "j1" (run others done) ≡ some (complete_row "done" (pos 5) job1)
run_terminal_example = run_terminal "j1" others done done-UniqueIds done_found refl

step-Advances_example :
    Follows Advances job1 (row "j1" (step (fails "j1" "t1" "no" true (pos 9)) jobs))
step-Advances_example =
    step-Advances "j1" (fails "j1" "t1" "no" true (pos 9)) jobs jobs-UniqueIds job1_found

picked_lem_example :
    let ps = picked ("mail" ∷ []) 1 (λ id. false) (pos 1) jobs.jobs in
    let candidates = filter (may_pick ("mail" ∷ []) (λ id. false) (pos 1)) jobs.jobs in
    (others : List Job) × Perm (ps ++ others) candidates
    × (length ps ≡ min 1 (length candidates))
    × InOrder ps
    × All (λ a. All (IsAhead a) others) ps
picked_lem_example = picked_lem ("mail" ∷ []) 1 (λ id. false) (pos 1) jobs.jobs

backoff_secs_lem_example : backoff_secs 4 5 3600 ≡ min (5 * 2 ^ (4 - 1)) 3600
backoff_secs_lem_example = backoff_secs_lem 4 5 3600 (omega arith) (omega arith) (omega arith)

-- After the first attempt of three the job waits for the base delay; at ids other than its own the table
-- shows what it did.
fail_lem_example :
    let r = fail "j1" "t1" "no" true (pos 9) jobs in
    (r.0 ≡ some (retry 5))
    × (row "j1" r.1 ≡ some (failed_row "no" false 5 (pos 9) job1))
    × (r.1.sent ≡ failed_event "j1" "no" false ∷ [])
fail_lem_example =
    fail_lem "j1" "t1" "no" "j1" true (pos 9) jobs job1_found refl refl (omega arith) (omega arith)

-- ===== src/Jobs/Calls.antt =====
-- The calls that change the job store, one after another (crates/atomo_server/src/jobs.rs). A call
-- that the database refuses leaves the store as it was.
use atomo.Prelude.{String, Bool, List, [], ◌∷◌}
use atomo.Prelude.Int.{ℤ}
use atomo.Jobs.Store.{JobStore, Request, Result, ok, err, enqueue}
use atomo.Jobs.Methods.{lease, heartbeat, complete, fail, reclaim_expired}

pub data Call : Type 0 where
  enqueues : ℤ → String → Request → Call
  leases : List String → ℤ → ℤ → (String → String) → (String → Bool) → ℤ → Call
  heartbeats : String → String → ℤ → ℤ → Call
  completes : String → String → String → ℤ → Call
  fails : String → String → String → Bool → ℤ → Call
  reclaims : ℤ → Call

module _ {A : Type 0} where
  abbrev pub after : JobStore → Result (A × JobStore) → JobStore
  after s (ok (a, s')) = s'
  after s (err e) = s

unfoldable pub step : Call → JobStore → JobStore
unfolding enqueue lease heartbeat complete fail reclaim_expired
step (enqueues now id r) s = after s (enqueue now id r s)
step (leases queues capacity visibility token locked now) s =
    after s (lease queues capacity visibility token locked now s)
step (heartbeats id token visibility now) s = (heartbeat id token visibility now s).1
step (completes id token result now) s = (complete id token result now s).1
step (fails id token error retryable now) s = (fail id token error retryable now s).1
step (reclaims now) s = (reclaim_expired now s).1

unfoldable pub run : List Call → JobStore → JobStore
unfolding step
run [] s = s
run (c ∷ cs) s = run cs (step c s)

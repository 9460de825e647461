-- ===== src/Jobs/Lifecycle.antt =====
-- The life of a row (crates/atomo_server/src/jobs.rs): which statuses a call may lead to, and what of
-- a row never changes.
use atomo.Prelude.{
  ℕ, String, Bool, true, false, ◌&&◌, ◌||◌, ◌≤◌, Option, none, some, List, [], ◌∷◌, ◌++◌, ◌≡◌, refl,
  sym, ap, subst, arith, str_eq, eq_iff, if◌then◌else◌, ◌∙◌, zero, suc, ap₂, filter, take, not,
  contains, inl, inr, ◌⊎◌, string_key, Bool-cases,
}
use atomo.Prelude.Sorting.{insert_by, sort_by}
use atomo.Prelude.Int.{ℤ, pos, negsuc, leb_ℤ}
use atomo.Jobs.Retry.{FailOutcome, retry, dead_letter, decide_on_fail}
use atomo.Jobs.Store.{
  JobStatus, queued, leased, succeeded, dead, is_queued, is_leased, Job, JobStore, Request, Result,
  ok, err, update_where, any_where, find_where, same, has_id, holds, conflicts, enqueue_at,
  enqueue_tx, sent_if_created, emit_enqueued, enqueue, queued_row,
}
use atomo.Jobs.Methods.{
  lease, grant, picked, order_rows, before, eligible, among, lease_row, heartbeat, heartbeat_row,
  complete, complete_row, retry_row, dead_row, apply_outcome, fail_found, fail, expired,
  reclaim_row, reclaim_expired, row,
}
use atomo.Jobs.Calls.{
  Call, enqueues, leases, heartbeats, completes, fails, reclaims, after, step, run,
}
use atomo.Jobs.Rows.{
  find-update_where, find-append, find_holds, updated, map_row, UniqueIds, find_unique,
  update_where-UniqueIds, append-UniqueIds,
}
pub mod Moves
pub mod Runs

-- The moves of the state machine in one call.
abbrev pub allowed : JobStatus → JobStatus → Bool
allowed queued queued = true
allowed queued leased = true
allowed leased s = true
allowed succeeded succeeded = true
allowed dead dead = true
allowed _ _ = false

abbrev pub is_terminal : JobStatus → Bool
is_terminal succeeded = true
is_terminal dead = true
is_terminal _ = false

-- What a row may become in one call.
abbrev pub Moves : Job → Job → Type 0
Moves j j' =
    (allowed j.status j'.status ≡ true)
    × (j.attempts ≤ j'.attempts)
    × (is_terminal j.status ≡ true → j' ≡ j)
    × (j'.payload ≡ j.payload)
    × (j'.idempotency_key ≡ j.idempotency_key)

abbrev pub Follows : (Job → Job → Type 0) → Job → Option Job → Type 0
Follows R j none = ⊥
Follows R j (some j') = R j j'

pub same_row : (j : Job) → Moves j j
same_row j = (allowed_refl j.status, omega arith, λ t. refl, refl, refl)
  where
    allowed_refl : (s : JobStatus) → allowed s s ≡ true
    allowed_refl queued = refl
    allowed_refl leased = refl
    allowed_refl succeeded = refl
    allowed_refl dead = refl

updated-Moves : (b : Bool) (j j' : Job) → (b ≡ true → Moves j j') → Moves j (if b then j' else j)
updated-Moves true j j' move = move refl
updated-Moves false j j' move = same_row j

-- An update moves a row as it moves the rows that it matches.
pub update-Moves :
    (p : Job → Bool) (f : Job → Job) (id : String) (js : List Job) {j : Job}
    → ((k : Job) → (f k).id ≡ k.id)
    → find_where (has_id id) js ≡ some j
    → (p j ≡ true → Moves j (f j))
    → Follows Moves j (find_where (has_id id) (update_where p f js))
update-Moves p f id js {j} keep h move =
    subst (Follows Moves j)
      (sym (
        find-update_where (has_id id) p f js (λ k p. ap (λ i. str_eq i id) (keep k))
        ∙ ap (map_row (updated p f)) h))
      (updated-Moves (p j) j (f j) move)

-- A row that is leased may become anything.
pub leased-Moves :
    (j j' : Job)
    → is_leased j.status ≡ true
    → j.attempts ≤ j'.attempts
    → j'.payload ≡ j.payload
    → j'.idempotency_key ≡ j.idempotency_key
    → Moves j j'
leased-Moves j j' h at pl key =
    (leased_allowed j.status j'.status h, at, not_terminal j.status h, pl, key)
  where
    leased_allowed : (s s' : JobStatus) → is_leased s ≡ true → allowed s s' ≡ true
    leased_allowed leased s' h = refl
    leased_allowed queued s' h = ground arith
    leased_allowed succeeded s' h = ground arith
    leased_allowed dead s' h = ground arith

    not_terminal : (s : JobStatus) → is_leased s ≡ true → is_terminal s ≡ true → j' ≡ j
    not_terminal leased h t = ground arith
    not_terminal queued h t = ground arith
    not_terminal succeeded h t = ground arith
    not_terminal dead h t = ground arith

pub queued-Moves :
    (j j' : Job)
    → is_queued j.status ≡ true
    → j'.status ≡ leased
    → j.attempts ≤ j'.attempts
    → j'.payload ≡ j.payload
    → j'.idempotency_key ≡ j.idempotency_key
    → Moves j j'
queued-Moves j j' h to at pl key = (
  subst (λ s. allowed j.status s ≡ true) (sym to) (queued_allowed j.status h),
  at,
  not_terminal j.status h,
  pl,
  key,
)
  where
    queued_allowed : (s : JobStatus) → is_queued s ≡ true → allowed s leased ≡ true
    queued_allowed queued h = refl
    queued_allowed leased h = refl
    queued_allowed succeeded h = ground arith
    queued_allowed dead h = ground arith

    not_terminal : (s : JobStatus) → is_queued s ≡ true → is_terminal s ≡ true → j' ≡ j
    not_terminal leased h t = ground arith
    not_terminal queued h t = ground arith
    not_terminal succeeded h t = ground arith
    not_terminal dead h t = ground arith

unmatched :
    (id : String) (p : Job → Bool) (js : List Job)
    → any_where (has_id id) js ≡ false
    → any_where (has_id id) (filter p js) ≡ false
unfolding any_where
unmatched id p [] h = refl
unmatched id p (j ∷ js) h = ground (arith, unmatched id p js)

-- The rows that a lease picks are queued.
any-filter :
    (id : String) (p : Job → Bool) (js : List Job) {j : Job}
    → UniqueIds js
    → find_where (has_id id) js ≡ some j
    → any_where (has_id id) (filter p js) ≡ true
    → p j ≡ true
unfolding find_where any_where
any-filter id p [] u h a = ground arith
any-filter id p (i ∷ js) {j} u h a =
    ground (arith, eq_iff i.id id, any-filter id p js {j = j} u.1, unmatched id p js)

any-insert_by :
    (q : Job → Bool) (le : Job → Job → Bool) (a : Job) (bs : List Job)
    → any_where q (insert_by le a bs) ≡ (q a || any_where q bs)
unfolding insert_by any_where
any-insert_by q le a [] = refl
any-insert_by q le a (b ∷ bs) = ground (arith, any-insert_by q le a bs)

any-sort_by :
    (q : Job → Bool) (le : Job → Job → Bool) (js : List Job)
    → any_where q (sort_by le js) ≡ any_where q js
unfolding sort_by any_where
any-sort_by q le [] = refl
any-sort_by q le (a ∷ bs) =
    ground (arith, any-insert_by q le a (sort_by le bs), any-sort_by q le bs)

any-take :
    (q : Job → Bool) (n : ℕ) (js : List Job)
    → any_where q (take n js) ≡ true
    → any_where q js ≡ true
unfolding any_where
any-take q zero js h = ground arith
any-take q (suc n) [] h = ground arith
any-take q (suc n) (j ∷ js) h = ground (arith, any-take q n js)

pub picked_queued :
    (queues : List String) (n : ℕ) (locked : String → Bool) (now : ℤ) (js : List Job)
    → (id : String) {j : Job} → UniqueIds js
    → find_where (has_id id) js ≡ some j
    → any_where (has_id id) (picked queues n locked now js) ≡ true
    → is_queued j.status ≡ true
unfolding picked order_rows
picked_queued queues n locked now js id {j} u h a =
    let p = λ (j : Job). eligible queues now j && not (locked j.id) in
    ground (
      arith,
      any-filter id p js {j = j} u h,
      any-sort_by (has_id id) before (filter p js),
      any-take (has_id id) n (order_rows (filter p js)),
    )

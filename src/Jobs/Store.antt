-- ===== src/Jobs/Store.antt =====
-- The job store and its lease engine (crates/atomo_server/src/jobs.rs): the table as a list of rows,
-- and one function for each method, with its statements. The database's clock is an argument of each
-- call, in microseconds; so are the ids and lease tokens that are drawn, and the rows that other
-- transactions have locked.
use atomo.Prelude.{
  ℕ, suc, ◌-◌, ◌*◌, ◌^◌, String, Bool, true, false, ◌&&◌, ◌||◌, Option, none, some, List, [], ◌∷◌,
  ◌++◌, ltb, str_eq, if◌then◌else◌, string_key,
}
use atomo.Prelude.Int.{ℤ, pos, negsuc}

pub data JobStatus : Type 0 where
  queued leased succeeded dead : JobStatus

abbrev pub is_leased : JobStatus → Bool
is_leased leased = true
is_leased _ = false

abbrev pub is_queued : JobStatus → Bool
is_queued queued = true
is_queued _ = false

-- A row of the table `jobs`.
pub record Job : Type 0 where
  pub id : String
  pub queue : String
  pub kind : String
  pub status : JobStatus
  pub payload : String
  pub result : Option String
  pub error : Option String
  pub idempotency_key : Option String
  pub attempts : ℕ
  pub max_attempts : ℤ
  pub lease_id : Option String
  pub worker_id : Option String
  pub visible_at : ℤ
  pub tenant_id : Option String
  pub priority : ℤ
  pub created_at : ℤ
  pub updated_at : ℤ

-- The `Job` events that are sent; fields that an event lacks are `none`.
pub data EventType : Type 0 where
  created custom : EventType

pub record JobEvent : Type 0 where
  pub event_type : EventType
  pub id : String
  pub status : JobStatus
  pub queue : Option String
  pub kind : Option String
  pub attempts : Option ℕ
  pub error : Option String

pub record JobStore : Type 0 where
  pub jobs : List Job
  pub sent : List JobEvent
  pub base_backoff_secs : ℕ
  pub cap_backoff_secs : ℕ

unfoldable pub new : JobStore
new = record { jobs = []; sent = []; base_backoff_secs = 5; cap_backoff_secs = 3600 }

-- A statement that the database refuses changes nothing.
pub data DbError : Type 0 where
  unique_violation negative_limit out_of_range : DbError

pub data Result {ℓ} (A : Type ℓ) : Type ℓ where
  ok : A → Result A
  err : DbError → Result A

-- `(n || ' seconds')::interval`
abbrev pub seconds : ℤ → ℤ
seconds (pos n) = pos (n * 1000000)
seconds (negsuc n) = negsuc (suc n * 1000000 - 1)

-- `n as i64`, of a `u64`.
abbrev pub as_i64 : ℕ → ℤ
as_i64 n = if ltb n (2 ^ 63) then pos n else negsuc (2 ^ 64 - n - 1)

abbrev pub emit : JobEvent → JobStore → JobStore
emit e s = record s { sent = s.sent ++ e ∷ [] }

-- `UPDATE jobs SET … WHERE …`, and whether it affected a row.
unfoldable pub update_where : (Job → Bool) → (Job → Job) → List Job → List Job
update_where p f [] = []
update_where p f (j ∷ js) = (if p j then f j else j) ∷ update_where p f js

unfoldable pub any_where : (Job → Bool) → List Job → Bool
any_where p [] = false
any_where p (j ∷ js) = p j || any_where p js

unfoldable pub find_where : (Job → Bool) → List Job → Option Job
find_where p [] = none
find_where p (j ∷ js) = if p j then some j else find_where p js

abbrev pub same : String → Option String → Bool
same k none = false
same k (some k') = str_eq k k'

-- `WHERE id = $1`
abbrev pub has_id : String → Job → Bool
has_id id j = str_eq j.id id

-- `WHERE id = $1 AND lease_id = $2 AND status = 'leased'`
abbrev pub holds : String → String → Job → Bool
holds id token j = str_eq j.id id && (same token j.lease_id && is_leased j.status)

-- The partial unique index on (queue, idempotency_key): a key that is null conflicts with nothing.
abbrev pub conflicts : String → Option String → Job → Bool
conflicts queue none j = false
conflicts queue (some key) j = str_eq j.queue queue && same key j.idempotency_key

-- The arguments of `enqueue`.
pub record Request : Type 0 where
  pub queue : String
  pub kind : String
  pub payload : String
  pub idempotency_key : Option String
  pub max_attempts : ℤ
  pub priority : ℤ
  pub tenant_id : Option String

abbrev pub queued_row : ℤ → String → Request → Job
queued_row now id r = record {
  id = id;
  queue = r.queue;
  kind = r.kind;
  status = queued;
  payload = r.payload;
  result = none;
  error = none;
  idempotency_key = r.idempotency_key;
  attempts = 0;
  max_attempts = r.max_attempts;
  lease_id = none;
  worker_id = none;
  visible_at = now;
  tenant_id = r.tenant_id;
  priority = r.priority;
  created_at = now;
  updated_at = now;
}

-- `enqueue_tx`: the id of the job, whether it was created, and the table after.
unfoldable pub enqueue_at :
    Option Job → ℤ → String → Request → JobStore → Result ((String × Bool) × JobStore)
unfolding any_where
enqueue_at (some existing) now id r s = ok ((existing.id, false), s)
enqueue_at none now id r s =
    if any_where (has_id id) s.jobs
    then err unique_violation
    else ok ((id, true), record s { jobs = s.jobs ++ queued_row now id r ∷ [] })

unfoldable pub enqueue_tx : ℤ → String → Request → JobStore → Result ((String × Bool) × JobStore)
unfolding enqueue_at find_where
enqueue_tx now id r s =
    enqueue_at (find_where (conflicts r.queue r.idempotency_key) s.jobs) now id r s

unfoldable pub emit_enqueued : String → Request → JobStore → JobStore
emit_enqueued id r = emit (record {
  event_type = created;
  id = id;
  status = queued;
  queue = some r.queue;
  kind = some r.kind;
  attempts = none;
  error = none;
})

-- `enqueue`: the event is sent only for a job that was created.
unfoldable pub sent_if_created :
    Request → Result ((String × Bool) × JobStore) → Result (String × JobStore)
unfolding emit_enqueued
sent_if_created r (err e) = err e
sent_if_created r (ok ((id, true), s)) = ok (id, emit_enqueued id r s)
sent_if_created r (ok ((id, false), s)) = ok (id, s)

unfoldable pub enqueue : ℤ → String → Request → JobStore → Result (String × JobStore)
unfolding sent_if_created enqueue_tx
enqueue now id r s = sent_if_created r (enqueue_tx now id r s)

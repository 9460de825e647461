-- ===== src/Jobs/Methods.antt =====
-- The lease engine (crates/atomo_server/src/jobs.rs): `lease`, `heartbeat`, `complete`, `fail` and
-- `reclaim_expired`, and the row of an id.
use atomo.Prelude.{
  ℕ, ◌+◌, ◌-◌, ◌^◌, String, Bool, not, ◌&&◌, ◌||◌, Option, none, some, List, ◌++◌, map, filter,
  take, length, contains, leb, if◌then◌else◌, string_key,
}
use atomo.Prelude.Sorting.{sort_by}
use atomo.Prelude.Int.{ℤ, pos, negsuc, pos_part, ◌+ℤ◌, ltb_ℤ, leb_ℤ}
use atomo.Jobs.Retry.{FailOutcome, retry, dead_letter, decide_on_fail}
use atomo.Jobs.Store.{
  JobStatus, queued, leased, succeeded, dead, is_leased, is_queued, Job, custom, JobEvent, JobStore,
  negative_limit, out_of_range, Result, ok, err, seconds, as_i64, emit, update_where, any_where,
  find_where, has_id, holds,
}

-- `WHERE queue = ANY($1) AND status = 'queued' AND visible_at <= NOW()`
abbrev pub eligible : List String → ℤ → Job → Bool
eligible queues now j = contains queues j.queue && (is_queued j.status && leb_ℤ j.visible_at now)

-- `ORDER BY priority DESC, visible_at`
abbrev pub before : Job → Job → Bool
before a b =
    ltb_ℤ b.priority a.priority || (leb_ℤ b.priority a.priority && leb_ℤ a.visible_at b.visible_at)

unfoldable pub order_rows : List Job → List Job
unfolding sort_by
order_rows js = sort_by before js

-- The CTE `picked`: the rows that are locked elsewhere are skipped.
unfoldable pub picked : List String → ℕ → (String → Bool) → ℤ → List Job → List Job
unfolding order_rows
picked queues capacity locked now js =
    take capacity (order_rows (filter (λ j. eligible queues now j && not (locked j.id)) js))

abbrev pub i32_max : ℕ
i32_max = 2 ^ 31 - 1

abbrev pub lease_row : (String → String) → ℤ → ℤ → Job → Job
lease_row token visibility now j = record j {
  status = leased;
  lease_id = some (token j.id);
  attempts = j.attempts + 1;
  visible_at = now +ℤ seconds visibility;
  updated_at = now;
}

abbrev pub among : List Job → Job → Bool
among ps j = any_where (has_id j.id) ps

abbrev leased_event : Job → JobEvent
leased_event j = record {
  event_type = custom;
  id = j.id;
  status = leased;
  queue = none;
  kind = none;
  attempts = some j.attempts;
  error = none;
}

-- A job that is handed to a worker.
pub record LeasedJob : Type 0 where
  pub id : String
  pub queue : String
  pub kind : String
  pub payload : String
  pub attempts : ℕ
  pub max_attempts : ℤ
  pub lease_id : Option String

abbrev leased_job : Job → LeasedJob
leased_job j = record {
  id = j.id;
  queue = j.queue;
  kind = j.kind;
  payload = j.payload;
  attempts = j.attempts;
  max_attempts = j.max_attempts;
  lease_id = j.lease_id;
}

unfoldable pub grant :
    List Job → (String → String) → ℤ → ℤ → JobStore → Result (List LeasedJob × JobStore)
unfolding any_where update_where
grant ps token visibility now s =
    let taken = map (lease_row token visibility now) (filter (among ps) s.jobs) in
    if any_where (λ j. leb i32_max j.attempts) (filter (among ps) s.jobs)
    then err out_of_range
    else ok (
      map leased_job taken,
      record s {
        jobs = update_where (among ps) (lease_row token visibility now) s.jobs;
        sent = s.sent ++ map leased_event taken;
      },
    )

-- `lease`, with the tokens that `gen_random_uuid()` draws for the rows; it answers the jobs as they
-- are after the update. A negative limit is refused, and so is a counter that leaves `INT`.
unfoldable pub lease :
    List String
    → ℤ
    → ℤ
    → (String → String)
    → (String → Bool)
    → ℤ
    → JobStore
    → Result (List LeasedJob × JobStore)
unfolding grant picked
lease queues (negsuc n) visibility token locked now s = err negative_limit
lease queues (pos capacity) visibility token locked now s =
    grant (picked queues capacity locked now s.jobs) token visibility now s

abbrev pub heartbeat_row : ℤ → ℤ → Job → Job
heartbeat_row visibility now j = record j {
  visible_at = now +ℤ seconds visibility;
  updated_at = now;
}

unfoldable pub heartbeat : String → String → ℤ → ℤ → JobStore → Bool × JobStore
unfolding any_where update_where
heartbeat id token visibility now s = (
  any_where (holds id token) s.jobs,
  record s { jobs = update_where (holds id token) (heartbeat_row visibility now) s.jobs },
)

abbrev status_event : String → JobStatus → Option String → JobEvent
status_event id status error = record {
  event_type = custom;
  id = id;
  status = status;
  queue = none;
  kind = none;
  attempts = none;
  error = error;
}

abbrev pub complete_row : String → ℤ → Job → Job
complete_row result now j = record j {
  status = succeeded;
  result = some result;
  lease_id = none;
  updated_at = now;
}

unfoldable pub complete : String → String → String → ℤ → JobStore → Bool × JobStore
unfolding any_where update_where
complete id token result now s =
    let found = any_where (holds id token) s.jobs in
    let s' = record s { jobs = update_where (holds id token) (complete_row result now) s.jobs } in
    (found, if found then emit (status_event id succeeded none) s' else s')

abbrev pub retry_row : String → ℕ → ℤ → Job → Job
retry_row error delay now j = record j {
  status = queued;
  lease_id = none;
  error = some error;
  visible_at = now +ℤ seconds (as_i64 delay);
  updated_at = now;
}

abbrev pub dead_row : String → ℤ → Job → Job
dead_row error now j = record j {
  status = dead;
  lease_id = none;
  error = some error;
  updated_at = now;
}

unfoldable pub apply_outcome : FailOutcome → String → String → ℤ → JobStore → JobStore
unfolding update_where
apply_outcome (retry delay) id error now s =
    emit (status_event id queued (some error))
      (record s { jobs = update_where (has_id id) (retry_row error delay now) s.jobs })
apply_outcome dead_letter id error now s =
    emit (status_event id dead (some error))
      (record s { jobs = update_where (has_id id) (dead_row error now) s.jobs })

-- `fail`, once its row is read (and locked).
unfoldable pub fail_found :
    Option Job → String → String → Bool → ℤ → JobStore → Option FailOutcome × JobStore
unfolding decide_on_fail apply_outcome
fail_found none id error retryable now s = (none, s)
fail_found (some j) id error retryable now s =
    let outcome =
      decide_on_fail j.attempts (pos_part j.max_attempts) retryable s.base_backoff_secs
        s.cap_backoff_secs in
    (some outcome, apply_outcome outcome id error now s)

unfoldable pub fail : String → String → String → Bool → ℤ → JobStore → Option FailOutcome × JobStore
unfolding fail_found find_where
fail id token error retryable now s =
    fail_found (find_where (holds id token) s.jobs) id error retryable now s

-- `WHERE status = 'leased' AND visible_at < NOW()`
abbrev pub expired : ℤ → Job → Bool
expired now j = is_leased j.status && ltb_ℤ j.visible_at now

abbrev pub reclaim_row : ℤ → Job → Job
reclaim_row now j = record j {
  status = queued;
  lease_id = none;
  worker_id = none;
  updated_at = now;
}

-- `reclaim_expired`: the number of reclaimed rows, and the table after.
unfoldable pub reclaim_expired : ℤ → JobStore → ℕ × JobStore
unfolding update_where
reclaim_expired now s = (
  length (filter (expired now) s.jobs),
  record s { jobs = update_where (expired now) (reclaim_row now) s.jobs },
)

-- `SELECT … FROM jobs WHERE id = $1`
unfoldable pub row : String → JobStore → Option Job
unfolding find_where
row id s = find_where (has_id id) s.jobs

-- ===== src/Jobs/Failing.antt =====
-- What becomes of a failed attempt (crates/atomo_server/src/jobs.rs).
use atomo.Prelude.{
  ℕ, zero, suc, ◌-◌, ◌*◌, ◌^◌, ◌≤◌, ◌<◌, min, String, Bool, true, false, not, ◌||◌, Option, none,
  some, List, [], ◌∷◌, ◌++◌, ◌≡◌, ◌∙◌, refl, sym, ap, subst, arith, str_eq, leb, if◌then◌else◌,
  eq_iff, Bool-cases, Option-cases, inl, inr,
}
use atomo.Prelude.Int.{ℤ, pos, pos_part, ◌+ℤ◌}
use atomo.Jobs.Retry.{FailOutcome, retry, dead_letter, backoff_secs, decide_on_fail}
use atomo.Jobs.Retry.Bounds.{backoff_secs_lem}
use atomo.Jobs.Store.{
  Job, queued, leased, dead, custom, JobEvent, JobStore, find_where, update_where, has_id, holds,
  as_i64,
}
use atomo.Jobs.Methods.{row, retry_row, dead_row, apply_outcome, fail_found, fail}
use atomo.Jobs.Rows.{find-update_where, find_holds}

find-holds :
    (id token : String) (js : List Job) {j : Job}
    → find_where (has_id id) js ≡ some j
    → holds id token j ≡ true
    → find_where (holds id token) js ≡ some j
unfolding find_where
find-holds id token [] h held = ground arith
find-holds id token (i ∷ js) {j} h held = ground (arith, find-holds id token js {j = j})

-- An update of the row of an id that keeps its id is seen at that id alone.
row-updated :
    (id other : String) (f : Job → Job) (s : JobStore) {j : Job}
    → ((k : Job) → (f k).id ≡ k.id)
    → find_where (has_id id) s.jobs ≡ some j
    → find_where (has_id other) (update_where (has_id id) f s.jobs)
      ≡ (if str_eq id other then some (f j) else find_where (has_id other) s.jobs)
row-updated id other f s {j} keep h =
    find-update_where (has_id other) (has_id id) f s.jobs (λ k p. ap (λ i. str_eq i other) (keep k))
    ∙ elim (Bool-cases (str_eq id other)) [
      | inl same ↦
          let there =
            subst (λ (k : String). find_where (has_id k) s.jobs ≡ some j) ((eq_iff id other).0 same)
              h in
          ground (arith, same, there, find_holds (has_id id) s.jobs h)
      | inr apart ↦ elim (Option-cases (find_where (has_id other) s.jobs)) [
        | inl absent ↦ ground (arith, apart, absent)
        | inr (k, there) ↦ ground (
          arith,
          apart,
          there,
          eq_iff k.id other,
          eq_iff k.id id,
          eq_iff id other,
          find_holds (has_id other) s.jobs there,
        )
      ]
    ]

-- Whether there is no further attempt after one that failed.
abbrev pub gives_up : Bool → Job → Bool
gives_up retryable j = not retryable || leb (pos_part j.max_attempts) j.attempts

-- The base, doubled for each attempt after the first, up to the cap.
abbrev pub delay_of : JobStore → Job → ℕ
delay_of s j = min (s.base_backoff_secs * 2 ^ (j.attempts - 1)) s.cap_backoff_secs

-- The row after an attempt that failed: without a token, and dead, or queued to be seen after a delay.
abbrev pub failed_row : String → Bool → ℕ → ℤ → Job → Job
failed_row error final delay now j = record j {
  status = if final then dead else queued;
  lease_id = none;
  error = some error;
  visible_at = if final then j.visible_at else now +ℤ pos (delay * 1000000);
  updated_at = now;
}

abbrev pub failed_event : String → String → Bool → JobEvent
failed_event id error final = record {
  event_type = custom;
  id = id;
  status = if final then dead else queued;
  queue = none;
  kind = none;
  attempts = none;
  error = some error;
}

delay_lem :
    (attempts base limit : ℕ)
    → limit < 2 ^ 63
    → limit ≤ base * 2 ^ 20
    → backoff_secs attempts base limit ≡ min (base * 2 ^ (attempts - 1)) limit
unfolding backoff_secs
delay_lem zero base limit fits reached = omega arith
delay_lem (suc k) base limit fits reached =
    backoff_secs_lem (suc k) base limit (omega arith) (omega (arith, fits)) reached

module _ (id other error : String) (now : ℤ) (s : JobStore) {j : Job}
    (h : find_where (has_id id) s.jobs ≡ some j) where
  -- What a run of `fail` comes to.
  abbrev pub FailsAs : Bool → ℕ → Option FailOutcome × JobStore → Type 0
  FailsAs final delay r =
      (r.0 ≡ some (if final then dead_letter else retry delay))
      × (row other r.1
          ≡ (if str_eq id other then some (failed_row error final delay now j) else row other s))
      × (r.1.sent ≡ s.sent ++ failed_event id error final ∷ [])

  applied :
      (final : Bool) (delay : ℕ)
      → delay < 2 ^ 63
      → let o = if final then dead_letter else retry delay in
        FailsAs final delay (some o, apply_outcome o id error now s)
  unfolding row apply_outcome
  applied true delay small = (refl, row-updated id other (dead_row error now) s (λ k. refl) h, refl)
  applied false delay small =
      let fits : as_i64 delay ≡ pos delay = ground (arith, small) in
      (refl, row-updated id other (retry_row error delay now) s (λ k. refl) h ∙ rw fits refl, refl)

-- When the holder of a job's lease reports a failure, the job is dead if the error is not retryable or
-- its attempts have reached the maximum. Otherwise it is queued again, to be seen after the base delay,
-- doubled for each attempt after the first, up to the cap. Either way its token is gone, the error is
-- kept, the holder is told so, one event says so, and no other row changes; for a cap that fits an `i64`
-- and is reached within twenty doublings.
pub fail_lem :
    (id token error other : String) (retryable : Bool) (now : ℤ) (s : JobStore) {j : Job}
    → row id s ≡ some j
    → j.status ≡ leased
    → j.lease_id ≡ some token
    → s.cap_backoff_secs < 2 ^ 63
    → s.cap_backoff_secs ≤ s.base_backoff_secs * 2 ^ 20
    → let final = gives_up retryable j in
      let delay = delay_of s j in
      let r = fail id token error retryable now s in
      (r.0 ≡ some (if final then dead_letter else retry delay))
      × (row other r.1
          ≡ (if str_eq id other then some (failed_row error final delay now j) else row other s))
      × (r.1.sent ≡ s.sent ++ failed_event id error final ∷ [])
unfolding fail fail_found decide_on_fail row
fail_lem id token error other retryable now s {j} there is_held held fits reached =
    let final = gives_up retryable j in
    let backoff = backoff_secs j.attempts s.base_backoff_secs s.cap_backoff_secs in
    let doubled = delay_lem j.attempts s.base_backoff_secs s.cap_backoff_secs fits reached in
    let small : backoff < 2 ^ 63 = rw doubled (omega (arith, fits)) in
    let found =
      find-holds id token s.jobs there
        (ground (arith, is_held, held, find_holds (has_id id) s.jobs there, eq_iff token token)) in
    subst
      (λ (o : Option Job).
        FailsAs id other error now s there final (delay_of s j)
          (fail_found o id error retryable now s))
      (sym found)
      (subst
        (λ (d : ℕ).
          FailsAs id other error now s there final d (fail_found (some j) id error retryable now s))
        doubled (applied id other error now s there final backoff small))

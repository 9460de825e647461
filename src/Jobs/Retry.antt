-- ===== src/Jobs/Retry.antt =====
-- The retry policy of the job queue (crates/atomo_server/src/jobs.rs).
pub mod Bounds
use atomo.Prelude.{ℕ, ◌+◌, ◌-◌, ◌*◌, ◌^◌, Bool, true, false, not, ◌||◌, leb, min, if◌then◌else◌}

pub data FailOutcome : Type 0 where
  retry : ℕ → FailOutcome
  dead_letter : FailOutcome

abbrev pub u64_max : ℕ
u64_max = 2 ^ 64 - 1

abbrev pub saturating_mul : ℕ → ℕ → ℕ
saturating_mul a b = min (a * b) u64_max

-- The shift is capped, so that `1 << shift` fits a `u64`.
unfoldable pub backoff_secs : ℕ → ℕ → ℕ → ℕ
backoff_secs attempts base_secs cap_secs =
    if leb attempts 1
    then min base_secs cap_secs
    else min (saturating_mul base_secs (2 ^ min (attempts - 1) 20)) cap_secs

unfoldable pub decide_on_fail : ℕ → ℕ → Bool → ℕ → ℕ → FailOutcome
unfolding backoff_secs
decide_on_fail attempts max_attempts retryable base_secs cap_secs =
    if not retryable || leb max_attempts attempts
    then dead_letter
    else retry (backoff_secs attempts base_secs cap_secs)

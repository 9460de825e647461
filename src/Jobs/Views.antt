-- ===== src/Jobs/Views.antt =====
-- What the application reads of a job (crates/atomo_server/src/jobs.rs): `get` and `status`.
use atomo.Prelude.{ℕ, String, Option, none, some}
use atomo.Prelude.Int.{ℤ}
use atomo.Jobs.Store.{JobStatus, Job, JobStore}
use atomo.Jobs.Methods.{row}

-- The view of a job for polling; it carries no lease token.
pub record JobView : Type 0 where
  pub id : String
  pub queue : String
  pub kind : String
  pub status : JobStatus
  pub attempts : ℕ
  pub max_attempts : ℤ
  pub result : Option String
  pub error : Option String
  pub tenant_id : Option String

abbrev view_of : Option Job → Option JobView
view_of none = none
view_of (some j) = some (record {
  id = j.id;
  queue = j.queue;
  kind = j.kind;
  status = j.status;
  attempts = j.attempts;
  max_attempts = j.max_attempts;
  result = j.result;
  error = j.error;
  tenant_id = j.tenant_id;
})

unfoldable pub get : String → JobStore → Option JobView
unfolding row
get id s = view_of (row id s)

abbrev status_of : Option Job → Option JobStatus
status_of none = none
status_of (some j) = some j.status

unfoldable pub status : String → JobStore → Option JobStatus
unfolding row
status id s = status_of (row id s)

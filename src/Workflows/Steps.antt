-- ===== src/Workflows/Steps.antt =====
-- Conditions and steps of a workflow (crates/atomo/src/workflow.rs).
use atomo.Prelude.{
  string_key, ℕ, leb, String, Bool, true, not, ◌&&◌, Option, none, some, is_some, str_eq, unwrap_or,
  if◌then◌else◌,
}
use atomo.Prelude.Map.{get, insert}
use text.Mathlib.Text.{find?}
use atomo.Workflows.{
  Runtime, Result, ok, err, Context, StepAction, mutation, job, http, delay, set_variable,
  Condition, MutationExecutor, JobExecutor,
}

-- `str::contains`
abbrev pub text_contains : String → String → Bool
text_contains s t = is_some (find? s t)

-- `status.is_success()`
abbrev pub is_success : ℕ → Bool
is_success status = leb 200 status && leb status 299

module _ (R : Runtime) where
  -- `as_f64().unwrap_or(0.0)` and `as_str().unwrap_or("")`.
  abbrev pub float_of : R.Value → R.Float
  float_of v = unwrap_or R.zero (R.as_f64 v)

  abbrev pub text_of : R.Value → String
  text_of v = unwrap_or "" (R.as_str v)

  unfoldable pub evaluate_condition : Condition R → Context R → Bool
  unfolding get
  evaluate_condition cond context =
      let val = unwrap_or R.null (get cond.field context) in
      if str_eq cond.operator "eq"
      then R.value_eq val cond.value
      else if str_eq cond.operator "neq"
      then not (R.value_eq val cond.value)
      else if str_eq cond.operator "gt"
      then R.gt (float_of val) (float_of cond.value)
      else if str_eq cond.operator "lt"
      then R.gt (float_of cond.value) (float_of val)
      else if str_eq cond.operator "contains"
      then text_contains (text_of val) (text_of cond.value)
      else true

  -- What a step leaves: its result, the context and the world.
  abbrev pub Outcome : Type 0
  Outcome = Result (Unit {0}) × Context R × R.World

  abbrev pub http_done : String → Result ℕ × R.World → Context R → Outcome
  http_done url (err e, w) context = (err e, context, w)
  http_done url (ok status, w) context =
      let context' = insert "http_status" (R.of_status status) context in
      if is_success status
      then (ok tt, context', w)
      else (err (R.status_error url status), context', w)

  abbrev pub job_done : Result String × R.World → Context R → Outcome
  job_done (err e, w) context = (err e, context, w)
  job_done (ok id, w) context = (ok tt, insert "job_id" (R.of_string id) context, w)

  unfoldable pub execute_step :
      Option (MutationExecutor R)
      → Option (JobExecutor R)
      → StepAction R
      → Context R
      → R.World
      → Outcome
  unfolding insert
  execute_step mutations jobs (delay seconds) context w = (ok tt, context, R.sleep seconds w)
  execute_step mutations jobs (set_variable key value) context w =
      (ok tt, insert key value context, w)
  execute_step mutations jobs (http method url body) context w =
      http_done url (R.send method url body w) context
  execute_step none jobs (mutation query variables) context w =
      (err "workflow Mutation step: no executor configured (server must inject one)", context, w)
  execute_step (some exec) jobs (mutation query variables) context w =
      let r = exec query variables w in (r.0, context, r.1)
  execute_step mutations none (job queue kind payload key) context w =
      (err "workflow Job step: no executor configured (server must inject one)", context, w)
  execute_step mutations (some exec) (job queue kind payload key) context w =
      job_done (exec queue kind payload key w) context

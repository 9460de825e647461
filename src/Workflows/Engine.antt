-- ===== src/Workflows/Engine.antt =====
-- The engine's methods (crates/atomo/src/workflow.rs).
use atomo.Prelude.{
  string_key, ℕ, zero, suc, String, Bool, true, false, not, ◌&&◌, Option, none, some, is_some, List,
  [], ◌∷◌, ◌++◌, str_eq, filter, if◌then◌else◌,
}
use atomo.Prelude.Map
use atomo.Prelude.Map.{values, keys}
use atomo.Workflows.{
  Runtime, Result, ok, err, Context, WorkflowStep, Workflow, WorkflowTrigger, on_event, manual,
  schedule, FailurePolicy, stop, continue, retry, WorkflowExecution, running, completed, failed,
  WorkflowEngine, Condition, MutationExecutor, JobExecutor,
}
use atomo.Workflows.Steps.{evaluate_condition, execute_step, Outcome}

-- `matches!(&w.trigger, OnEvent { .. } if ..)`
abbrev pub is_triggered : String → String → WorkflowTrigger → Bool
is_triggered model event_type (on_event m e) = str_eq m model && str_eq e event_type
is_triggered model event_type manual = false
is_triggered model event_type (schedule cron) = false

module _ (R : Runtime) where
  unfoldable pub new : WorkflowEngine R
  new = record { workflows = []; mutation_executor = none; job_executor = none }

  unfoldable pub set_mutation_executor : MutationExecutor R → WorkflowEngine R → WorkflowEngine R
  set_mutation_executor exec engine = record engine { mutation_executor = some exec }

  unfoldable pub set_job_executor : JobExecutor R → WorkflowEngine R → WorkflowEngine R
  set_job_executor exec engine = record engine { job_executor = some exec }

  unfoldable pub register : Workflow R → WorkflowEngine R → WorkflowEngine R
  unfolding Map.insert
  register workflow engine = record engine {
    workflows = Map.insert workflow.name workflow engine.workflows;
  }

  unfoldable pub remove : String → WorkflowEngine R → Bool × WorkflowEngine R
  unfolding Map.remove Map.get
  remove name engine = (
    is_some (Map.get name engine.workflows),
    record engine { workflows = Map.remove name engine.workflows },
  )

  unfoldable pub list : WorkflowEngine R → List String
  unfolding keys
  list engine = keys engine.workflows

  unfoldable pub get : String → WorkflowEngine R → Option (Workflow R)
  unfolding Map.get
  get name engine = Map.get name engine.workflows

  unfoldable pub find_by_trigger : String → String → WorkflowEngine R → List (Workflow R)
  unfolding values
  find_by_trigger model event_type engine =
      filter (λ w. is_triggered model event_type w.trigger) (values engine.workflows)

  -- What an action does with the context and the world, for the executors of an engine.
  abbrev pub Act : Type 0
  Act = Context R → R.World → Outcome R

  -- `for _ in 0..max_attempts { if execute_step(..).is_ok() { success = true; break } }`
  unfoldable pub retry_step : Act → ℕ → Context R → R.World → Bool × Context R × R.World
  retry_step act zero context w = (false, context, w)
  retry_step act (suc n) context w =
      let (result, context', w') = act context w in
      elim result [ ok _ ↦ (true, context', w') | err _ ↦ retry_step act n context' w' ]

  abbrev pub holds : Option (Condition R) → Context R → Bool
  holds none context = true
  holds (some cond) context = evaluate_condition R cond context

  -- What follows a step: the loop goes on, or returns.
  pub data Next : Type 0 where
    proceed : WorkflowExecution R → R.World → Next
    halt : WorkflowExecution R → R.World → Next

  abbrev pub retried : WorkflowExecution R → Bool × Context R × R.World → Next
  retried x (true, context, w) = proceed (record x { context = context }) w
  retried x (false, context, w) = halt (record x { context = context; status = failed }) w

  abbrev pub on_failure : Act → FailurePolicy → WorkflowExecution R → R.World → Next
  on_failure act stop x w = halt (record x { status = failed }) w
  on_failure act continue x w = proceed x w
  on_failure act (retry n) x w = retried x (retry_step act n x.context w)

  abbrev pub stepped : WorkflowStep R → Act → WorkflowExecution R → Outcome R → Next
  stepped s act x (ok _, context, w) = proceed (record x { context = context }) w
  stepped s act x (err e, context, w) =
      on_failure act s.on_failure
        (record x { context = context; errors = x.errors ++ R.step_error s.name e ∷ [] }) w

  -- The body of the loop, at the index of the step.
  unfoldable pub run_step :
      WorkflowEngine R → ℕ → WorkflowStep R → WorkflowExecution R → R.World → Next
  unfolding evaluate_condition execute_step retry_step
  run_step engine i s x w =
      let x' = record x { current_step = i } in
      let act = execute_step R engine.mutation_executor engine.job_executor s.action in
      if not (holds s.condition x'.context)
      then proceed x' w
      else stepped s act x' (act x'.context w)

  -- The loop goes on with the steps that are left, or is left.
  abbrev pub follow :
      (WorkflowExecution R → R.World → WorkflowExecution R × R.World)
      → Next
      → WorkflowExecution R × R.World
  follow rest (proceed x w) = rest x w
  follow rest (halt x w) = (x, w)

  unfoldable pub run_steps :
      WorkflowEngine R
      → ℕ
      → List (WorkflowStep R)
      → WorkflowExecution R
      → R.World
      → WorkflowExecution R × R.World
  unfolding run_step
  run_steps engine i [] x w = (record x { status = completed }, w)
  run_steps engine i (s ∷ steps) x w =
      follow (λ x' w'. run_steps engine (suc i) steps x' w') (run_step engine i s x w)

  abbrev pub begin : String → Context R → WorkflowExecution R
  begin name context = record {
    workflow_name = name;
    status = running;
    current_step = 0;
    context = context;
    errors = [];
  }

  unfoldable pub execute :
      String → Context R → WorkflowEngine R → R.World → Result (WorkflowExecution R) × R.World
  unfolding get run_steps
  execute name context engine w = elim (get name engine) [
    | none ↦ (err (R.not_found name), w)
    | some workflow ↦
        let r = run_steps engine 0 workflow.steps (begin name context) w in (ok r.0, r.1)
  ]

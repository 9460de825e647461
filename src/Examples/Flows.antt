-- ===== src/Examples/Flows.antt =====
-- Workflows and their executions (crates/atomo/src/workflow.rs).
use atomo.Prelude.{
  string_key, ℕ, suc, ◌≤◌, String, true, false, none, some, List, [], ◌∷◌, ◌≡◌, refl, arith, ◌⊎◌,
  ◌↔◌, All, get_elem?, length, nat_eq, if◌then◌else◌, ltb,
}
use atomo.Prelude.Map
use atomo.Workflows.{
  Runtime, ok, err, WorkflowStep, Workflow, WorkflowExecution, WorkflowEngine, on_event, manual,
  stop, continue, completed, StepAction, http, set_variable,
}
use atomo.Workflows.Engine.{new, get, execute, begin, run_steps, retry_step, find_by_trigger}
use atomo.Workflows.Steps.{execute_step}
use atomo.Workflows.Outcomes.{Ended, execute_ends}
use atomo.Workflows.Retrying.{
  SucceedsAt, FailsAll, attempts, retry_step_lem, failed_is_final, execute_completes,
}
use atomo.Workflows.Listening.{Edit, registers, removes, edits, find_by_trigger_lem}
use atomo.Workflows.Schedule.{Cron, IsCron, OccursIn, cron_should_fire, cron_should_fire_lem}

-- Values are numbers; the world counts the requests, and every second one is answered with success.
abbrev counting : Runtime
counting = record {
  Value = ℕ;
  Float = ℕ;
  World = ℕ;
  null = 0;
  value_eq = nat_eq;
  as_f64 = λ n. some n;
  as_str = λ n. none;
  zero = 0;
  gt = λ a b. ltb b a;
  of_status = λ n. n;
  of_string = λ s. 1;
  send = λ method url body w. (ok (if nat_eq w 1 then 200 else 500), suc w);
  sleep = λ n w. w;
  status_error = λ url status. "failed";
  step_error = λ name e. e;
  not_found = λ name. name;
}

abbrev ping : StepAction counting
ping = http "GET" "http://host/" none

abbrev ping_step : WorkflowStep counting
ping_step = record { name = "ping"; action = ping; condition = none; on_failure = stop }

abbrev note_step : WorkflowStep counting
note_step = record {
  name = "note";
  action = set_variable "noted" 1;
  condition = none;
  on_failure = continue;
}

abbrev pinging : Workflow counting
pinging = record {
  name = "pinging";
  trigger = on_event "Deal" "Updated";
  steps = note_step ∷ ping_step ∷ note_step ∷ [];
}

abbrev lenient : Workflow counting
lenient = record {
  name = "lenient";
  trigger = manual;
  steps = note_step ∷ record ping_step { on_failure = continue } ∷ [];
}

abbrev registered : List (Edit counting)
registered = registers pinging ∷ registers lenient ∷ removes "other" ∷ []

abbrev engine : WorkflowEngine counting
engine = edits counting registered (new counting)

execute_ends_example :
    ((get counting "pinging" engine ≡ none)
      × (execute counting "pinging" [] engine 0 ≡ (err "pinging", 0)))
    ⊎ ((workflow : Workflow counting) × (x : WorkflowExecution counting) × (get counting "pinging"
            engine
          ≡ some workflow)
        × ((execute counting "pinging" [] engine 0).0 ≡ ok x)
        × Ended counting 0 workflow.steps (begin counting "pinging" []) x)
execute_ends_example = execute_ends counting "pinging" [] engine 0

failed_is_final_example :
    run_steps counting engine 0 (ping_step ∷ note_step ∷ []) (begin counting "p" []) 0
    ≡ run_steps counting engine 0 (ping_step ∷ []) (begin counting "p" []) 0
unfolding run_steps Map.insert
failed_is_final_example =
    failed_is_final counting engine 0 (ping_step ∷ []) (note_step ∷ []) (begin counting "p" []) 0
      refl

retry_step_lem_example :
    let act = execute_step counting none none ping in
    ((k : ℕ) × SucceedsAt counting act 3 k [] 0
      × (retry_step counting act 3 [] 0
          ≡ (true, (attempts counting act (suc k) [] 0).0, (attempts counting act (suc k) [] 0).1)))
    ⊎ (FailsAll counting act 3 [] 0
        × (retry_step counting act 3 [] 0
            ≡ (false, (attempts counting act 3 [] 0).0, (attempts counting act 3 [] 0).1)))
retry_step_lem_example = retry_step_lem counting (execute_step counting none none ping) 3 [] 0

-- The second attempt succeeds, and there is no third.
retried_once :
    retry_step counting (execute_step counting none none ping) 3 [] 0
    ≡ (true, ("http_status", 200) ∷ [], 2)
unfolding retry_step execute_step Map.insert
retried_once = refl

execute_completes_example :
    (x : WorkflowExecution counting) × ((execute counting "lenient" [] engine 0).0 ≡ ok x)
    × (x.status ≡ completed)
    × (length x.errors ≤ 2)
unfolding get edits new Map.get Map.insert Map.remove
execute_completes_example =
    execute_completes counting "lenient" [] engine 0 lenient refl (refl, (refl, tt))

find_by_trigger_lem_example :
    let found = find_by_trigger counting "Deal" "Updated" engine in
    All (λ w. (get counting w.name engine ≡ some w) × (w.trigger ≡ on_event "Deal" "Updated")) found
    × ((name : String) (w : Workflow counting)
        → get counting name engine ≡ some w
        → w.trigger ≡ on_event "Deal" "Updated"
        → (i : ℕ) × (get_elem? found i ≡ some w))
find_by_trigger_lem_example = find_by_trigger_lem counting registered "Deal" "Updated"

-- An expression with an occurrence at the moment 10 alone.
abbrev once : Cron
once = record {
  Schedule = ℕ;
  parse = λ text. ok 10;
  next_after = λ s t. if ltb t s then some s else none;
}

abbrev At : ℕ → ℕ → Type 0
At s n = s ≡ n

once-IsCron : IsCron once At
once-IsCron = record {
  later = λ s t n h. ground (arith, h);
  first = λ s t n same after. (s, ground (arith, same, after), omega (arith, same));
}

cron_should_fire_lem_example :
    ((cron_should_fire once "10" 3 12 ≡ ok true) ↔ OccursIn once once-IsCron 10 3 12)
    × ((cron_should_fire once "10" 3 12 ≡ ok true) ↔ (
        (cron_should_fire once "10" 3 9 ≡ ok true) ⊎ (cron_should_fire once "10" 9 12 ≡ ok true)))
cron_should_fire_lem_example =
    cron_should_fire_lem once once-IsCron "10" 10 3 9 12 refl (omega arith) (omega arith)

-- ===== src/Workflows.antt =====
-- Workflow definitions and their executions (crates/atomo/src/workflow.rs). JSON values with their
-- floats, HTTP and the two executors are of other code; what they act on is a state `World` that is
-- passed along.
pub mod Steps
pub mod Engine
pub mod Outcomes
pub mod Retrying
pub mod Schedule
pub mod Listening
use atomo.Prelude.{ℕ, String, Bool, Option, List}
use atomo.Prelude.Map.{Map}

pub data Result (A : Type 0) : Type 0 where
  ok : A → Result A
  err : String → Result A

-- The seams of the engine: serde_json's values, reqwest, the clock, and the texts of errors.
pub record Runtime : Type 1 where
  pub Value : Type 0
  pub Float : Type 0
  pub World : Type 0
  pub null : Value
  pub value_eq : Value → Value → Bool
  pub as_f64 : Value → Option Float
  pub as_str : Value → Option String
  pub zero : Float
  pub gt : Float → Float → Bool
  pub of_status : ℕ → Value
  pub of_string : String → Value
  -- The answer to a request is the number of its status.
  pub send : String → String → Option Value → World → Result ℕ × World
  pub sleep : ℕ → World → World
  pub status_error : String → ℕ → String
  pub step_error : String → String → String
  pub not_found : String → String

pub data WorkflowTrigger : Type 0 where
  on_event : String → String → WorkflowTrigger
  manual : WorkflowTrigger
  schedule : String → WorkflowTrigger

pub data FailurePolicy : Type 0 where
  stop : FailurePolicy
  continue : FailurePolicy
  retry : ℕ → FailurePolicy

pub data ExecutionStatus : Type 0 where
  running completed failed paused : ExecutionStatus

module _ (R : Runtime) where
  abbrev pub Context : Type 0
  Context = Map String R.Value

  pub data StepAction : Type 0 where
    mutation : String → Map String R.Value → StepAction
    job : String → String → R.Value → Option String → StepAction
    http : String → String → Option R.Value → StepAction
    delay : ℕ → StepAction
    set_variable : String → R.Value → StepAction

  pub record Condition : Type 0 where
    pub field : String
    pub operator : String
    pub value : R.Value

  pub record WorkflowStep : Type 0 where
    pub name : String
    pub action : StepAction
    pub condition : Option Condition
    pub on_failure : FailurePolicy

  pub record Workflow : Type 0 where
    pub name : String
    pub trigger : WorkflowTrigger
    pub steps : List WorkflowStep

  pub record WorkflowExecution : Type 0 where
    pub workflow_name : String
    pub status : ExecutionStatus
    pub current_step : ℕ
    pub context : Context
    pub errors : List String

  abbrev pub MutationExecutor : Type 0
  MutationExecutor = String → Map String R.Value → R.World → Result (Unit {0}) × R.World

  abbrev pub JobExecutor : Type 0
  JobExecutor = String → String → R.Value → Option String → R.World → Result String × R.World

  -- The engine, less its table in Postgres.
  pub record WorkflowEngine : Type 0 where
    pub workflows : Map String Workflow
    pub mutation_executor : Option MutationExecutor
    pub job_executor : Option JobExecutor

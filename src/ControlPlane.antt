-- ===== src/ControlPlane.antt =====
-- The fleet of projects (crates/atomo_control_plane/src/registry.rs, driver.rs, error.rs). JSON values
-- are of serde.
pub mod Registry
pub mod Runtime
pub mod Gateway
pub mod Provisioner
pub mod Lifecycle
pub mod Reconciler
pub mod Drivers
pub mod Instances
pub mod Convergence
pub mod Statuses
pub mod Ports
use Prim.Native.String.{◌++◌ as str_append}
use atomo.Prelude.{
  ℕ, String, Bool, true, false, Option, none, some, List, [], ◌∷◌, str_eq, if◌then◌else◌,
}

pub data ControlPlaneError : Type 0 where
  database driver secret gateway not_found invalid_state io serde other : String → ControlPlaneError

pub data Result (A : Type 0) : Type 0 where
  ok : A → Result A
  err : ControlPlaneError → Result A

pub data ProjectStatus : Type 0 where
  provisioning running stopped failed : ProjectStatus

pub data DesiredState : Type 0 where
  want_running want_stopped : DesiredState

pub data InstanceState : Type 0 where
  is_running is_stopped is_failed is_unknown : InstanceState

-- `ProjectStatus::as_str` and `parse`.
unfoldable pub status_str : ProjectStatus → String
status_str provisioning = "provisioning"
status_str running = "running"
status_str stopped = "stopped"
status_str failed = "failed"

unfoldable pub parse_status : String → Result ProjectStatus
parse_status s =
    if str_eq s "provisioning"
    then ok provisioning
    else if str_eq s "running"
    then ok running
    else if str_eq s "stopped"
    then ok stopped
    else if str_eq s "failed"
    then ok failed
    else err (invalid_state (str_append "status=" s))

-- `DesiredState::as_str` and `parse`.
unfoldable pub desired_str : DesiredState → String
desired_str want_running = "running"
desired_str want_stopped = "stopped"

unfoldable pub parse_desired : String → DesiredState
parse_desired s = if str_eq s "stopped" then want_stopped else want_running

pub data SchemaRef : Type 0 where
  git : String → String → String → SchemaRef
  volume : String → SchemaRef

pub record Project (Json : Type 0) : Type 0 where
  pub id : String
  pub display_name : String
  pub hostname : Option String
  pub aliases : List String
  pub database_url_ref : String
  pub schema_ref : SchemaRef
  pub schema_version : Option String
  pub upstream : Option String
  pub env : Json
  pub status : ProjectStatus
  pub desired_state : DesiredState
  pub last_health : Option Json
  pub created_at : ℕ
  pub updated_at : ℕ

pub record InstanceHandle : Type 0 where
  pub project_id : String
  pub upstream : String
  pub driver_ref : String

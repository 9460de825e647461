-- ===== src/ControlPlane/Statuses.antt =====
-- The texts of states are read back as the states that they name
-- (crates/atomo_control_plane/src/registry.rs).
use atomo.Prelude.{String, ◌≡◌, refl, ◌↔◌, arith, eq_iff}
use atomo.ControlPlane.{
  ProjectStatus, provisioning, running, stopped, failed, DesiredState, want_running, want_stopped,
  ok, status_str, parse_status, desired_str, parse_desired,
}

-- A text is read as a status exactly when it is the text of that status, and a desired state is read
-- back from its text.
pub parse_status_lem :
    ((t : String) (s : ProjectStatus) → (parse_status t ≡ ok s) ↔ (t ≡ status_str s))
    × ((d : DesiredState) → parse_desired (desired_str d) ≡ d)
unfolding status_str parse_status desired_str parse_desired
parse_status_lem = (λ t s. (reads t s, back t s), desired)
  where
    reads : (t : String) (s : ProjectStatus) → parse_status t ≡ ok s → t ≡ status_str s
    reads t provisioning h = ground (
      arith,
      h,
      eq_iff t "provisioning",
      eq_iff t "running",
      eq_iff t "stopped",
      eq_iff t "failed",
    )
    reads t running h = ground (
      arith,
      h,
      eq_iff t "provisioning",
      eq_iff t "running",
      eq_iff t "stopped",
      eq_iff t "failed",
    )
    reads t stopped h = ground (
      arith,
      h,
      eq_iff t "provisioning",
      eq_iff t "running",
      eq_iff t "stopped",
      eq_iff t "failed",
    )
    reads t failed h = ground (
      arith,
      h,
      eq_iff t "provisioning",
      eq_iff t "running",
      eq_iff t "stopped",
      eq_iff t "failed",
    )

    back : (t : String) (s : ProjectStatus) → t ≡ status_str s → parse_status t ≡ ok s
    back t provisioning h = rw h refl
    back t running h = rw h refl
    back t stopped h = rw h refl
    back t failed h = rw h refl

    desired : (d : DesiredState) → parse_desired (desired_str d) ≡ d
    desired want_running = refl
    desired want_stopped = refl

-- ===== src/ControlPlane/Reconciler.antt =====
-- The reconcile loop (crates/atomo_control_plane/src/reconciler.rs).
use atomo.Prelude.{String, Option, none, some, List, [], ◌∷◌, if◌then◌else◌}
use atomo.ControlPlane.{
  Project, DesiredState, want_running, want_stopped, InstanceState, is_running, is_stopped,
  is_failed, is_unknown,
}
use atomo.ControlPlane.Registry
use atomo.ControlPlane.Runtime.{Runtime, World, Method, ◌>>=◌, pure, call, statement}
use atomo.ControlPlane.Provisioner.{start, stop}

pub data ReconcileAction : Type 0 where
  noop do_start do_stop : ReconcileAction

unfoldable pub decide : DesiredState → InstanceState → ReconcileAction
decide want_running is_running = noop
decide want_running is_stopped = do_start
decide want_running is_failed = do_start
decide want_running is_unknown = do_start
decide want_stopped is_running = do_stop
decide want_stopped is_failed = do_stop
decide want_stopped is_stopped = noop
decide want_stopped is_unknown = noop

module _ (R : Runtime) where
  abbrev pub perform : ReconcileAction → String → Method R (Unit {0})
  perform noop id = pure tt
  perform do_start id = start R id
  perform do_stop id = stop R id

  unfoldable pub reconcile_one : Project R.Json → Method R (Unit {0})
  unfolding decide start stop
  reconcile_one p = do
    observed ← call (R.driver_state p)
    perform (decide p.desired_state observed) p.id

  abbrev pub health_at : Option String → World R → R.Json × World R
  health_at none w = (R.health "unknown" none (R.now w.outer), w)
  health_at (some u) w =
      let r = R.reachable u w.outer in
      (
        R.health (if r.0 then "healthy" else "unreachable") (some u) (R.now w.outer),
        record w { outer = r.1 },
      )

  -- The document is written at the project's row.
  unfoldable pub probe_health : Project R.Json → World R → World R
  unfolding Registry.set_last_health
  probe_health p w =
      let r = health_at p.upstream w in
      (statement (λ now. Registry.set_last_health now p.id r.0) r.1).1

  -- The body of the loop; a failure is logged only.
  unfoldable pub visit : Project R.Json → World R → World R
  unfolding reconcile_one probe_health
  visit p w = probe_health p (reconcile_one p w).1

  unfoldable pub visit_all : List (Project R.Json) → World R → World R
  unfolding visit
  visit_all [] w = w
  visit_all (p ∷ ps) w = visit_all ps (visit p w)

  unfoldable pub tick : World R → World R
  unfolding visit_all Registry.list
  tick w = visit_all (Registry.list R.text_le w.registry) w

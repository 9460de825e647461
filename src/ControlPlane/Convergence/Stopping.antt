-- ===== src/ControlPlane/Convergence/Stopping.antt =====
-- A stop by the operator against the loop (crates/atomo_control_plane/src/provisioner.rs and
-- reconciler.rs).
use atomo.Prelude.{
  ℕ, String, Option, none, some, List, [], ◌∷◌, ◌≡◌, refl, ◌∙◌, arith, Option-cases, inl, inr,
  subst,
}
use atomo.ControlPlane.{
  Result, ok, err, Project, DesiredState, want_running, InstanceState, is_running, is_stopped,
  is_failed, is_unknown, stopped,
}
use atomo.ControlPlane.Registry
use atomo.ControlPlane.Runtime.{Runtime, World, continue, ◌>>◌, call}
use atomo.ControlPlane.Provisioner.{stop, refresh_gateway, set_status, audit}
use atomo.ControlPlane.Reconciler.{reconcile_one}
use atomo.ControlPlane.Drivers.{IsDriver}
use atomo.ControlPlane.Instances.{stop_ok, get_id}
use mathlib.Core.Bool.{true}
use atomo.ControlPlane.Convergence.{suits, reconcile_one-Converged}

module _ {Json : Type 0} where
  abbrev pub wanted : Option (Project Json) → Option DesiredState
  wanted none = none
  wanted (some p) = some p.desired_state

  wanted-update :
      (now : ℕ) (id : String) (ps : List (Project Json))
      → wanted (
          Registry.find id
            (Registry.update_where id (λ p. record p { status = stopped; updated_at = now }) ps))
        ≡ wanted (Registry.find id ps)
  unfolding Registry.find Registry.update_where
  wanted-update now id [] = refl
  wanted-update now id (p ∷ ps) = ground (arith, wanted-update now id ps)

module _ (R : Runtime) (state_of : String → R.Outer → InstanceState)
    (laws : IsDriver R state_of) where
  -- What the registry says is wanted of a project.
  abbrev pub wants : String → World R → Option DesiredState
  wants id w = wanted (Registry.find id w.registry.projects)

  wants-stop : (id : String) (w : World R) → wants id (stop R id w).1 ≡ wants id w
  unfolding stop refresh_gateway Registry.update_status Registry.record_event
  wants-stop id w = looked (Registry.get id w.registry)
    where
      called :
          (r : Result (Unit {0}) × R.Outer)
          → wants id
              (continue
                (r.0, record w { outer = r.1 })
                (λ _. set_status R id stopped >> (audit R id "stop" [] >> refresh_gateway R))).1
            ≡ wants id w
      called (ok u, o) = wanted-update (R.now o) id w.registry.projects
      called (err e, o) = refl

      looked :
          (r : Result (Project R.Json))
          → wants id
              (continue
                (r, w)
                (λ p.
                  call (R.driver_stop p)
                  >> (set_status R id stopped >> (audit R id "stop" [] >> refresh_gateway R)))).1
            ≡ wants id w
      looked (ok p) = called (R.driver_stop p w.outer)
      looked (err e) = refl

  to_running : (s : InstanceState) → suits want_running s ≡ true → s ≡ is_running
  to_running is_running h = refl
  to_running is_stopped h = ground (arith, h)
  to_running is_failed h = ground (arith, h)
  to_running is_unknown h = ground (arith, h)

  wants_row :
      (id : String) (w : World R) (p : Project R.Json) (d : DesiredState)
      → Registry.get id w.registry ≡ ok p
      → wants id w ≡ some d
      → p.desired_state ≡ d
  unfolding Registry.get
  wants_row id w p d there h = elim (Option-cases (Registry.find id w.registry.projects)) [
    | inl absent ↦ ground (arith, h, absent)
    | inr (q, found) ↦ ground (arith, h, there, found)
  ]

  -- A stop by the operator does not change what the registry says is wanted. So a project of which
  -- `running` is wanted is running again after the next reconciliation of its row that succeeds, over a
  -- driver that does what it documents.
  pub stopped_runs_again :
      (id : String) (w : World R) (p : Project R.Json)
      → wants id w ≡ some want_running
      → (stop R id w).0 ≡ ok tt
      → Registry.get id (stop R id w).1.registry ≡ ok p
      → (reconcile_one R p (stop R id w).1).0 ≡ ok tt
      → (state_of id (stop R id w).1.outer ≡ is_stopped)
        × (state_of id (reconcile_one R p (stop R id w).1).1.outer ≡ is_running)
  stopped_runs_again id w p want done there again =
      let w' = (stop R id w).1 in
      let desired = wants_row id w' p want_running there (wants-stop id w ∙ want) in
      (
        stop_ok R state_of laws id w done,
        subst (λ (j : String). state_of j (reconcile_one R p w').1.outer ≡ is_running)
            (get_id id w'.registry p there)
            (to_running (state_of p.id (reconcile_one R p w').1.outer) (
              subst
                (λ (d : DesiredState).
                  suits d (state_of p.id (reconcile_one R p w').1.outer) ≡ true)
                desired (reconcile_one-Converged R state_of laws p w' again))),
      )

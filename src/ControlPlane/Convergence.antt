-- ===== src/ControlPlane/Convergence.antt =====
-- A pass of the reconcile loop brings the instances to the states that are wanted
-- (crates/atomo_control_plane/src/reconciler.rs).
pub mod Ticks
pub mod Stopping
use atomo.Prelude.{
  String, Bool, true, false, Option, none, some, List, [], ◌∷◌, All, ◌≡◌, ◌≢◌, refl, sym, ap, ◌∙◌,
  arith, eq_iff, str_eq, if◌then◌else◌, subst, Bool-cases, inl, inr,
}
use atomo.ControlPlane.{
  Result, ok, err, Project, DesiredState, want_running, want_stopped, InstanceState, is_running,
  is_stopped, is_failed, is_unknown,
}
use atomo.ControlPlane.Registry
use atomo.ControlPlane.Runtime.{Runtime, World, Method, continue, ◌>>=◌, call}
use atomo.ControlPlane.Provisioner.{start, stop}
use atomo.ControlPlane.Reconciler.{
  ReconcileAction, noop, do_start, do_stop, decide, perform, reconcile_one, probe_health, health_at,
  visit, visit_all, tick,
}
use atomo.ControlPlane.Drivers.{IsDriver, Keeps, Keeps-bind, bind_ok, state}
use atomo.ControlPlane.Instances.{start-Keeps, stop-Keeps, start_ok, stop_ok}

abbrev pub succeeds : {A : Type 0} → Result A → Bool
succeeds (ok a) = true
succeeds (err e) = false

-- What is wanted, by the instance's state: one that is wanted runs, and one that is not is stopped or
-- was never made.
abbrev pub suits : DesiredState → InstanceState → Bool
suits want_running is_running = true
suits want_running is_stopped = false
suits want_running is_failed = false
suits want_running is_unknown = false
suits want_stopped is_running = false
suits want_stopped is_stopped = true
suits want_stopped is_failed = false
suits want_stopped is_unknown = true

-- Nothing is left to do only where that is so.
noop_suits : (d : DesiredState) (s : InstanceState) → decide d s ≡ noop → suits d s ≡ true
unfolding decide
noop_suits want_running is_running h = refl
noop_suits want_running is_stopped h = ground (arith, h)
noop_suits want_running is_failed h = ground (arith, h)
noop_suits want_running is_unknown h = ground (arith, h)
noop_suits want_stopped is_running h = ground (arith, h)
noop_suits want_stopped is_stopped h = refl
noop_suits want_stopped is_failed h = ground (arith, h)
noop_suits want_stopped is_unknown h = refl

module _ (R : Runtime) where
  -- The projects of a pass, with whether their own calls succeeded.
  unfoldable pub outcomes : List (Project R.Json) → World R → List (Project R.Json × Bool)
  unfolding reconcile_one visit
  outcomes [] w = []
  outcomes (p ∷ ps) w = (p, succeeds (reconcile_one R p w).0) ∷ outcomes ps (visit R p w)

  -- No two of the projects have one id.
  abbrev pub Apart : List (Project R.Json) → Type 0
  Apart [] = Unit
  Apart (p ∷ ps) = All (λ q. p.id ≢ q.id) ps × Apart ps

module _ (R : Runtime) (state_of : String → R.Outer → InstanceState)
    (laws : IsDriver R state_of) where
  perform-Keeps :
      (a : ReconcileAction) (id j : String) → id ≢ j → Keeps R state_of id (perform R a j)
  perform-Keeps noop id j other w = refl
  perform-Keeps do_start id j other w = start-Keeps R state_of laws id j other w
  perform-Keeps do_stop id j other w = stop-Keeps R state_of laws id j other w

  reconcile_one-Keeps :
      (p : Project R.Json) (id : String) → id ≢ p.id → Keeps R state_of id (reconcile_one R p)
  unfolding reconcile_one
  reconcile_one-Keeps p id other =
      Keeps-bind R state_of id (call (R.driver_state p)) _ (λ w. laws.observe_frame p w.outer id)
        (λ observed. perform-Keeps (decide p.desired_state observed) id p.id other)

  health_at-Keeps :
      (u : Option String) (id : String) (w : World R)
      → state_of id (health_at R u w).1.outer ≡ state_of id w.outer
  health_at-Keeps none id w = refl
  health_at-Keeps (some u) id w = laws.reachable_frame u w.outer id

  probe-Keeps :
      (p : Project R.Json) (id : String) (w : World R)
      → state_of id (probe_health R p w).outer ≡ state_of id w.outer
  unfolding probe_health
  probe-Keeps p id w = health_at-Keeps p.upstream id w

  visit_all-Keeps :
      (ps : List (Project R.Json)) (id : String) (w : World R)
      → All (λ q. id ≢ q.id) ps
      → state_of id (visit_all R ps w).outer ≡ state_of id w.outer
  unfolding visit_all visit
  visit_all-Keeps [] id w others = refl
  visit_all-Keeps (q ∷ ps) id w others =
      visit_all-Keeps ps id (visit R q w) others.1
      ∙ probe-Keeps q id (reconcile_one R q w).1
      ∙ reconcile_one-Keeps q id others.0 w

  -- An instance is as it is wanted to be.
  abbrev pub Converged : Project R.Json → World R → Type 0
  Converged p w = suits p.desired_state (state_of p.id w.outer) ≡ true

  performed :
      (p : Project R.Json) (a : ReconcileAction) (d : DesiredState) (observed : InstanceState)
      (w : World R)
      → decide d observed ≡ a
      → observed ≡ state_of p.id w.outer
      → (perform R a p.id w).0 ≡ ok tt
      → decide d (state_of p.id (perform R a p.id w).1.outer) ≡ noop
  unfolding decide
  performed p noop d observed w decided seen done = ap (decide d) (sym seen) ∙ decided
  performed p do_start want_running observed w decided seen done =
      ap (decide want_running) (start_ok R state_of laws p.id w done)
  performed p do_start want_stopped is_running w decided seen done = ground (arith, decided)
  performed p do_start want_stopped is_stopped w decided seen done = ground (arith, decided)
  performed p do_start want_stopped is_failed w decided seen done = ground (arith, decided)
  performed p do_start want_stopped is_unknown w decided seen done = ground (arith, decided)
  performed p do_stop want_stopped observed w decided seen done =
      ap (decide want_stopped) (stop_ok R state_of laws p.id w done)
  performed p do_stop want_running is_running w decided seen done = ground (arith, decided)
  performed p do_stop want_running is_stopped w decided seen done = ground (arith, decided)
  performed p do_stop want_running is_failed w decided seen done = ground (arith, decided)
  performed p do_stop want_running is_unknown w decided seen done = ground (arith, decided)

  pub reconcile_one-Converged :
      (p : Project R.Json) (w : World R)
      → (reconcile_one R p w).0 ≡ ok tt
      → Converged p (reconcile_one R p w).1
  unfolding reconcile_one
  reconcile_one-Converged p w h =
      let w' = (call (R.driver_state p) w).1 in
      bind_ok R state_of (λ v. Converged p v) (call (R.driver_state p)) _ w tt
        (λ observed there done.
          let a = decide p.desired_state observed in
          noop_suits p.desired_state (state_of p.id (perform R a p.id w').1.outer) (
            performed p a p.desired_state observed w' refl
              (laws.observes p w.outer observed there ∙ sym (laws.observe_frame p w.outer p.id))
              done))
        h

  succeeds_ok : (r : Result (Unit {0})) → succeeds r ≡ true → r ≡ ok tt
  succeeds_ok (ok tt) h = refl
  succeeds_ok (err e) h = ground (arith, h)

  -- Over a driver that does what it documents, and projects with different ids: after a pass, each
  -- project whose own calls succeeded has its instance in the state that is wanted, whatever failed for
  -- the others.
  pub visit_all-Converged :
      (ps : List (Project R.Json)) (w : World R)
      → Apart R ps
      → All (λ x. x.1 ≡ true → Converged x.0 (visit_all R ps w)) (outcomes R ps w)
  unfolding visit_all visit outcomes
  visit_all-Converged [] w apart = tt
  visit_all-Converged (p ∷ ps) w apart = (
    λ h.
        ap (suits p.desired_state) (
          visit_all-Keeps ps p.id (visit R p w) apart.0
          ∙ probe-Keeps p p.id (reconcile_one R p w).1)
        ∙ reconcile_one-Converged p w (succeeds_ok (reconcile_one R p w).0 h),
    visit_all-Converged ps (visit R p w) apart.1,
  )

-- ===== src/ControlPlane/Instances.antt =====
-- What starting and stopping a project does to the instances
-- (crates/atomo_control_plane/src/provisioner.rs).
use atomo.Prelude.{
  string_key, String, some, List, [], ◌∷◌, ◌≡◌, ◌≢◌, refl, ◌∙◌, arith, eq_iff, str_eq, Bool-cases,
  Option-cases, inl, inr, subst,
}
use atomo.ControlPlane.{Result, ok, err, Project, InstanceState, is_running, is_stopped}
use atomo.ControlPlane.Registry
use atomo.ControlPlane.Registry.{ProjectRegistry}
use atomo.ControlPlane.Runtime.{Runtime, World, Method, continue, ◌>>=◌, call, look}
use atomo.ControlPlane.Provisioner.{
  start, stop, resolve_env, jwt_secret, jwt_secret_ref, non_empty, refresh_gateway,
}
use atomo.ControlPlane.Drivers.{IsDriver, Keeps, Keeps-bind, bind_ok, state}

module _ {Json : Type 0} where
  find_id :
      (id : String) (ps : List (Project Json)) (p : Project Json)
      → Registry.find id ps ≡ some p
      → p.id ≡ id
  unfolding Registry.find
  find_id id [] p h = ground (arith, h)
  find_id id (q ∷ ps) p h = elim (Bool-cases (str_eq q.id id)) [
    | inl same ↦ ground (arith, h, same, eq_iff q.id id)
    | inr other ↦ find_id id ps p (ground (arith, h, other))
  ]

  pub get_id :
      (id : String) (r : ProjectRegistry Json) (p : Project Json)
      → Registry.get id r ≡ ok p
      → p.id ≡ id
  unfolding Registry.get
  get_id id r p h = elim (Option-cases (Registry.find id r.projects)) [
    | inl absent ↦ ground (arith, h, absent)
    | inr (q, there) ↦ ground (arith, h, there, find_id id r.projects q there)
  ]

module _ (R : Runtime) (state_of : String → R.Outer → InstanceState)
    (laws : IsDriver R state_of) where
  jwt_secret-Keeps : (j id : String) → Keeps R state_of id (jwt_secret R j)
  unfolding jwt_secret
  jwt_secret-Keeps j id w =
      let r = R.secret_get (jwt_secret_ref R j) w.outer in
      let fresh = R.random_secret r.1 in
      let kept = laws.secret_get_frame (jwt_secret_ref R j) w.outer id in
      elim (Option-cases (non_empty r.0)) [
        | inr (v, there) ↦ rw (there, jwt_secret) kept
        | inl absent ↦
            rw (absent, jwt_secret)
              (laws.secret_put_frame (jwt_secret_ref R j) fresh.0 fresh.1 id
                ∙ laws.random_frame r.1 id
                ∙ kept)
      ]

  resolve_env-Keeps : (p : Project R.Json) (id : String) → Keeps R state_of id (resolve_env R p)
  unfolding resolve_env
  resolve_env-Keeps p id =
      Keeps-bind R state_of id (call (R.secret_get p.database_url_ref)) _
        (λ w. laws.secret_get_frame p.database_url_ref w.outer id)
        (λ url.
          Keeps-bind R state_of id (jwt_secret R p.id) _ (jwt_secret-Keeps p.id id) (λ jwt w. refl))

  -- A lookup hands on a project of the id that was looked up.
  look-Keeps :
      {B : Type 0} (id j : String) (f : Project R.Json → Method R B)
      → ((p : Project R.Json) → p.id ≡ j → Keeps R state_of id (f p))
      → Keeps R state_of id (look (Registry.get j) >>= f)
  look-Keeps {B} id j f rest w = after (Registry.get j w.registry) refl
    where
      after :
          (r : Result (Project R.Json))
          → Registry.get j w.registry ≡ r
          → state R state_of id (continue (r, w) f).1 ≡ state R state_of id w
      after (ok p) there = rest p (get_id j w.registry p there) w
      after (err e) there = refl

  -- Starting and stopping a project leaves the instances of others as they are.
  pub start-Keeps : (id j : String) → id ≢ j → Keeps R state_of id (start R j)
  unfolding start refresh_gateway
  start-Keeps id j other = look-Keeps id j _ (λ p same.
      Keeps-bind R state_of id (resolve_env R p) _ (resolve_env-Keeps p id) (λ env.
        Keeps-bind R state_of id (call (R.driver_start p env)) _
          (λ w. laws.start_frame p env w.outer id (λ h. other (h ∙ same)))
          (λ handle w. laws.load_frame _ w.outer id)))

  pub stop-Keeps : (id j : String) → id ≢ j → Keeps R state_of id (stop R j)
  unfolding stop refresh_gateway
  stop-Keeps id j other = look-Keeps id j _ (λ p same.
      Keeps-bind R state_of id (call (R.driver_stop p)) _
        (λ w. laws.stop_frame p w.outer id (λ h. other (h ∙ same)))
        (λ u w. laws.load_frame _ w.outer id))

  -- A start that succeeds leaves the instance running, and a stop that succeeds leaves it stopped.
  pub start_ok :
      (j : String) (w : World R)
      → (start R j w).0 ≡ ok tt
      → state R state_of j (start R j w).1 ≡ is_running
  unfolding start refresh_gateway
  start_ok j w h =
      bind_ok R state_of (λ v. state_of j v.outer ≡ is_running) (look (Registry.get j)) _ w tt
        (λ p there.
          bind_ok R state_of (λ v. state_of j v.outer ≡ is_running) (resolve_env R p) _ w tt
            (λ env resolved.
              let w' = (resolve_env R p w).1 in
              bind_ok R state_of (λ v. state_of j v.outer ≡ is_running)
                (call (R.driver_start p env)) _ w' tt
                (λ handle started done.
                  laws.load_frame _ (R.driver_start p env w'.outer).1 j
                  ∙ subst
                      (λ (id : String). state_of id (R.driver_start p env w'.outer).1 ≡ is_running)
                      (get_id j w.registry p there) (laws.starts p env w'.outer handle started))))
        h

  pub stop_ok :
      (j : String) (w : World R)
      → (stop R j w).0 ≡ ok tt
      → state R state_of j (stop R j w).1 ≡ is_stopped
  unfolding stop refresh_gateway
  stop_ok j w h =
      bind_ok R state_of (λ v. state_of j v.outer ≡ is_stopped) (look (Registry.get j)) _ w tt
        (λ p there.
          bind_ok R state_of (λ v. state_of j v.outer ≡ is_stopped) (call (R.driver_stop p)) _ w tt
            (λ u done rest.
              laws.load_frame _ (R.driver_stop p w.outer).1 j
              ∙ subst (λ (id : String). state_of id (R.driver_stop p w.outer).1 ≡ is_stopped)
                  (get_id j w.registry p there) (laws.stops p w.outer done)))
        h

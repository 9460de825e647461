-- ===== src/ControlPlane/Drivers.antt =====
-- What is relied on of a driver, and what the methods leave of the instances
-- (crates/atomo_control_plane/src/driver.rs, provisioner.rs).
use atomo.Prelude.{string_key, String, List, ◌≡◌, ◌≢◌, refl, ◌∙◌, arith}
use atomo.Prelude.Map.{Map}
use atomo.ControlPlane.{
  Result, ok, err, Project, InstanceHandle, InstanceState, is_running, is_stopped,
}
use atomo.ControlPlane.Runtime.{Route, Runtime, World, Method, continue, ◌>>=◌}

-- The documented behaviour of a driver: what it observes is the state of the instance with the id, a
-- start that succeeds leaves it running and a stop that succeeds leaves it stopped, and no call touches
-- the instances of other ids. What is not a driver touches no instance.
pub record IsDriver (R : Runtime) (state_of : String → R.Outer → InstanceState) : Type 0 where
  pub observes :
      (p : Project R.Json) (o : R.Outer) (s : InstanceState)
      → (R.driver_state p o).0 ≡ ok s
      → s ≡ state_of p.id o
  pub observe_frame :
      (p : Project R.Json) (o : R.Outer) (id : String)
      → state_of id (R.driver_state p o).1 ≡ state_of id o
  pub starts :
      (p : Project R.Json) (env : Map String String) (o : R.Outer) (h : InstanceHandle)
      → (R.driver_start p env o).0 ≡ ok h
      → state_of p.id (R.driver_start p env o).1 ≡ is_running
  pub start_frame :
      (p : Project R.Json) (env : Map String String) (o : R.Outer) (id : String)
      → id ≢ p.id
      → state_of id (R.driver_start p env o).1 ≡ state_of id o
  pub stops :
      (p : Project R.Json) (o : R.Outer)
      → (R.driver_stop p o).0 ≡ ok tt
      → state_of p.id (R.driver_stop p o).1 ≡ is_stopped
  pub stop_frame :
      (p : Project R.Json) (o : R.Outer) (id : String)
      → id ≢ p.id
      → state_of id (R.driver_stop p o).1 ≡ state_of id o
  pub secret_get_frame :
      (k : String) (o : R.Outer) (id : String) → state_of id (R.secret_get k o).1 ≡ state_of id o
  pub secret_put_frame :
      (k v : String) (o : R.Outer) (id : String)
      → state_of id (R.secret_put k v o).1 ≡ state_of id o
  pub random_frame : (o : R.Outer) (id : String) → state_of id (R.random_secret o).1 ≡ state_of id o
  pub load_frame :
      (routes : List Route) (o : R.Outer) (id : String)
      → state_of id (R.load routes o).1 ≡ state_of id o
  pub reachable_frame :
      (u : String) (o : R.Outer) (id : String) → state_of id (R.reachable u o).1 ≡ state_of id o

module _ (R : Runtime) (state_of : String → R.Outer → InstanceState) where
  abbrev pub state : String → World R → InstanceState
  state id w = state_of id w.outer

  -- A method leaves the instance of an id as it is.
  abbrev pub Keeps : {A : Type 0} → String → Method R A → Type 0
  Keeps id m = (w : World R) → state id (m w).1 ≡ state id w

  pub Keeps-bind :
      {A B : Type 0} (id : String) (m : Method R A) (f : A → Method R B)
      → Keeps id m
      → ((a : A) → Keeps id (f a))
      → Keeps id (m >>= f)
  Keeps-bind {A} {B} id m f keeps rest w = after (m w) (keeps w)
    where
      after :
          (r : Result A × World R)
          → state id r.1 ≡ state id w
          → state id (continue r f).1 ≡ state id w
      after (ok a, w') h = rest a w' ∙ h
      after (err e, w') h = h

  -- A chain that succeeds does so after its first part has.
  pub bind_ok :
      {A B : Type 0} (Q : World R → Type 0) (m : Method R A) (f : A → Method R B) (w : World R)
      (b : B)
      → ((a : A) → (m w).0 ≡ ok a → (f a (m w).1).0 ≡ ok b → Q (f a (m w).1).1)
      → ((m >>= f) w).0 ≡ ok b
      → Q ((m >>= f) w).1
  bind_ok {A} {B} Q m f w b rest h = after (m w) rest h
    where
      after :
          (r : Result A × World R)
          → ((a : A) → r.0 ≡ ok a → (f a r.1).0 ≡ ok b → Q (f a r.1).1)
          → (continue r f).0 ≡ ok b
          → Q (continue r f).1
      after (ok a, w') next h' = next a refl h'
      after (err e, w') next h' = ground (arith, h')

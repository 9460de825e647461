-- ===== src/ControlPlane/Runtime.antt =====
-- What the control plane calls, and runs of its methods on the registry and the world outside
-- (crates/atomo_control_plane/src/driver.rs, secrets.rs, error.rs).
use atomo.Prelude.{ℕ, String, Bool, Option, List}
use atomo.Prelude.Map.{Map}
use atomo.ControlPlane.{Result, ok, err, Project, InstanceHandle, InstanceState}
use atomo.ControlPlane.Registry.{ProjectRegistry}

-- A route of the gateway: the hosts that it matches, or else the header that names a project.
pub data Route : Type 0 where
  by_host : List String → String → Route
  by_header : String → String → Route

-- A value in the detail of an event.
pub data Detail : Type 0 where
  json_text : String → Detail
  json_bool : Bool → Detail

-- `Outer` is the state of all that is not the registry: instances, secrets, files, databases, the
-- gateway and the clock. The driver and the secret store are traits; git, the files, the administration
-- of databases, JSON and sockets are systems that are called; `load` writes and loads the gateway's
-- configuration; the variables of the environment stay as they are.
pub record Runtime : Type 1 where
  pub Json : Type 0
  pub Outer : Type 0
  pub text_le : String → String → Bool
  pub now : Outer → ℕ
  pub driver_start : Project Json → Map String String → Outer → Result InstanceHandle × Outer
  pub driver_stop : Project Json → Outer → Result (Unit {0}) × Outer
  pub driver_restart : Project Json → Map String String → Outer → Result InstanceHandle × Outer
  pub driver_state : Project Json → Outer → Result InstanceState × Outer
  pub secret_get : String → Outer → Result String × Outer
  pub secret_put : String → String → Outer → Result (Unit {0}) × Outer
  pub random_secret : Outer → String × Outer
  pub path_exists : String → Outer → Bool
  pub create_dir_all : String → Outer → Result (Unit {0}) × Outer
  pub git : List String → Outer → Result (Unit {0}) × Outer
  pub copy : String → String → Outer → Result (Unit {0}) × Outer
  pub admin_exec : String → Outer → Result (Unit {0}) × Outer
  pub load : List Route → Outer → Result (Unit {0}) × Outer
  pub reachable : String → Outer → Bool × Outer
  pub schema_volume_root : String
  pub port_base : ℕ
  -- `str::replace`, `str::bytes`, the number after the last colon of an address, and a number's text.
  pub replace : String → String → String → String
  pub bytes : String → List ℕ
  pub port_of : String → Option ℕ
  pub number_text : ℕ → String
  -- JSON: an object of texts and Booleans, the entries of an object as texts, and a health document.
  pub object : List (String × Detail) → Json
  pub entries : Json → List (String × String)
  pub health : String → Option String → ℕ → Json

pub record World (R : Runtime) : Type 0 where
  pub registry : ProjectRegistry R.Json
  pub outer : R.Outer

-- A method may fail; what it did before it failed stays done.
abbrev pub Method : (R : Runtime) → Type 0 → Type 0
Method R A = World R → Result A × World R

module _ {R : Runtime} {A B : Type 0} where
  abbrev pub continue : Result A × World R → (A → Method R B) → Result B × World R
  continue (ok a, w) f = f a w
  continue (err e, w) f = (err e, w)

  infixl 10 ◌>>=◌ ◌>>◌
  abbrev pub ◌>>=◌ : Method R A → (A → Method R B) → Method R B
  ◌>>=◌ m f w = continue (m w) f

  abbrev pub ◌>>◌ : Method R A → Method R B → Method R B
  ◌>>◌ m k w = continue (m w) (λ _. k)

module _ {R : Runtime} {A : Type 0} where
  abbrev pub pure : A → Method R A
  pure a w = (ok a, w)

  -- A call of what is outside.
  abbrev pub call : (R.Outer → Result A × R.Outer) → Method R A
  call f w = let r = f w.outer in (r.0, record w { outer = r.1 })

  abbrev pub look : (ProjectRegistry R.Json → Result A) → Method R A
  look f w = (f w.registry, w)

module _ {R : Runtime} where
  -- A statement on the registry at the time of the clock.
  abbrev pub statement : (ℕ → ProjectRegistry R.Json → ProjectRegistry R.Json) → Method R (Unit {0})
  statement f w = (ok tt, record w { registry = f (R.now w.outer) w.registry })

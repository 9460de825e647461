-- ===== src/Examples/Fleet.antt =====
-- A fleet of projects over a driver in memory (crates/atomo_control_plane/src).
use atomo.Prelude.{
  string_key, ◌≤◌, ◌<◌, String, true, none, some, List, [], ◌∷◌, ◌≡◌, refl, arith, eq_iff, str_eq,
  if◌then◌else◌, unwrap_or, All,
}
use atomo.Prelude.Map
use atomo.Prelude.Map.{Map, get-insert}
use atomo.Prelude.Sorting.{sort_by, insert_by}
use atomo.ControlPlane.{
  driver, ok, err, Project, provisioning, stopped, want_running, InstanceState, is_running,
  is_stopped, is_unknown, volume,
}
use atomo.ControlPlane.Registry
use atomo.ControlPlane.Registry.{ProjectRegistry}
use atomo.ControlPlane.Registry.Keys.{
  IsUnique, Statement, creates, deletes, execute_all, execute_all-IsUnique,
}
use atomo.ControlPlane.Runtime.{Runtime, World}
use atomo.ControlPlane.Provisioner.{stop, default_port}
use atomo.ControlPlane.Reconciler.{reconcile_one, tick}
use atomo.ControlPlane.Drivers.{IsDriver}
use atomo.ControlPlane.Convergence.{outcomes, Converged}
use atomo.ControlPlane.Convergence.Ticks.{tick-Converged}
use atomo.ControlPlane.Convergence.Stopping.{stopped_runs_again}
use atomo.ControlPlane.Ports.{default_port_lem}

abbrev state_of : String → Map String InstanceState → InstanceState
state_of id o = unwrap_or is_unknown (Map.get id o)

-- The instance `bad` cannot be started.
abbrev local : Runtime
local = record {
  Json = String;
  Outer = Map String InstanceState;
  text_le = λ a b. true;
  now = λ o. 0;
  driver_start = λ p env o. if str_eq p.id "bad" then (err (driver "no image"), o) else (
    ok (record { project_id = p.id; upstream = "127.0.0.1:4001"; driver_ref = "c" }),
    Map.insert p.id is_running o,
  );
  driver_stop = λ p o. (ok tt, Map.insert p.id is_stopped o);
  driver_restart = λ p env o. (err (driver "not supported"), o);
  driver_state = λ p o. (ok (state_of p.id o), o);
  secret_get = λ k o. (ok "secret", o);
  secret_put = λ k v o. (ok tt, o);
  random_secret = λ o. ("random", o);
  path_exists = λ path o. true;
  create_dir_all = λ path o. (ok tt, o);
  git = λ args o. (ok tt, o);
  copy = λ from to o. (ok tt, o);
  admin_exec = λ text o. (ok tt, o);
  load = λ routes o. (ok tt, o);
  reachable = λ u o. (true, o);
  schema_volume_root = "./atomo-schemas";
  port_base = 4000;
  replace = λ s a b. s;
  bytes = λ s. 97 ∷ [];
  port_of = λ u. some 4001;
  number_text = λ n. "4001";
  object = λ entries. "{}";
  entries = λ json. [];
  health = λ status upstream now. status;
}

local-IsDriver : IsDriver local state_of
unfolding Map.insert Map.get
local-IsDriver = record {
  observes = λ p o s h. ground (arith, h);
  observe_frame = λ p o id. refl;
  starts = λ p env o h started.
      ground (arith, started, get-insert p.id p.id is_running o, eq_iff p.id p.id);
  start_frame =
      λ p env o id other. ground (arith, other, get-insert p.id id is_running o, eq_iff p.id id);
  stops = λ p o stopped. ground (arith, get-insert p.id p.id is_stopped o, eq_iff p.id p.id);
  stop_frame =
      λ p o id other. ground (arith, other, get-insert p.id id is_stopped o, eq_iff p.id id);
  secret_get_frame = λ k o id. refl;
  secret_put_frame = λ k v o id. refl;
  random_frame = λ o id. refl;
  load_frame = λ routes o id. refl;
  reachable_frame = λ u o id. refl;
}

abbrev project : String → Project String
project id = record {
  id = id;
  display_name = id;
  hostname = none;
  aliases = [];
  database_url_ref = "/atomo/x/DATABASE_URL";
  schema_ref = volume "schema.ts";
  schema_version = none;
  upstream = none;
  env = "{}";
  status = provisioning;
  desired_state = want_running;
  last_health = none;
  created_at = 0;
  updated_at = 0;
}

-- A project that cannot start, and one that can.
abbrev fleet : World local
fleet = record {
  registry = record { projects = project "bad" ∷ project "good" ∷ []; events = [] };
  outer = [];
}

tick-Converged_example :
    All
      (λ x. x.1 ≡ true → Converged local state_of local-IsDriver x.0 (tick local fleet))
      (outcomes local (Registry.list local.text_le fleet.registry) fleet)
tick-Converged_example =
    tick-Converged local state_of local-IsDriver fleet (((refl, refl), tt), (tt, tt))

-- The first project fails, and the second runs.
second_runs :
    (state_of "good" (tick local fleet).outer ≡ is_running)
    × (state_of "bad" (tick local fleet).outer ≡ is_unknown)
unfolding tick Registry.list sort_by insert_by Map.get Map.insert
second_runs = (refl, refl)

stopped_runs_again_example :
    let w = (stop local "good" fleet).1 in
    (state_of "good" w.outer ≡ is_stopped)
    × (state_of "good"
          (reconcile_one local
            (record (project "good") { status = stopped; updated_at = 0 })
            w).1.outer
        ≡ is_running)
unfolding stop reconcile_one Registry.find Registry.get Registry.update_where Map.get Map.insert
stopped_runs_again_example =
    stopped_runs_again local state_of local-IsDriver "good" fleet
      (record (project "good") { status = stopped; updated_at = 0 }) refl refl refl refl

abbrev statements : List (Statement String)
statements =
    creates 0 (project "a") ∷ creates 0 (project "b") ∷ creates 0 (project "a") ∷ deletes "b" ∷ []

execute_all-IsUnique_example :
    IsUnique (execute_all statements (record { projects = []; events = [] })).projects
execute_all-IsUnique_example =
    execute_all-IsUnique statements (record { projects = []; events = [] }) tt

-- "ab" and "ba" have one port.
default_port_lem_example :
    (4000 ≤ default_port 4000 (97 ∷ 98 ∷ []))
    × (default_port 4000 (97 ∷ 98 ∷ []) < 5000)
    × (default_port 4000 (97 ∷ 98 ∷ []) ≡ default_port 4000 (98 ∷ 97 ∷ []))
default_port_lem_example =
    default_port_lem 4000 (97 ∷ 98 ∷ []) (98 ∷ 97 ∷ []) (omega arith) (omega arith)

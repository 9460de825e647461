-- ===== src/ControlPlane/Lifecycle.antt =====
-- Creating, updating and deleting projects (crates/atomo_control_plane/src/provisioner.rs).
use atomo.Prelude.{String, Bool, false, Option, none, some, is_some, [], ◌∷◌, if◌then◌else◌}
use atomo.Prelude.Map.{Map}
use Prim.Native.String.{◌++◌ as str_append}
use text.Mathlib.Text.{find?}
use atomo.ControlPlane.{
  ControlPlaneError, database, driver, secret, gateway, not_found, invalid_state, io, serde, other,
  Result, ok, err, Project, provisioning, running, failed, SchemaRef, git, volume, InstanceHandle,
}
use atomo.ControlPlane.Registry
use atomo.ControlPlane.Runtime.{
  json_text, json_bool, Runtime, World, Method, ◌>>=◌, ◌>>◌, pure, call, look, statement,
}
use atomo.ControlPlane.Provisioner.{
  database_name, materialize_schema, resolve_env, set_status, set_upstream, audit, refresh_gateway,
  default_port, when, attempt,
}

-- `msg.contains("already exists")` of an error of the database.
abbrev pub already_exists : ControlPlaneError → Bool
already_exists (database e) = is_some (find? e "already exists")
already_exists (driver e) = false
already_exists (secret e) = false
already_exists (gateway e) = false
already_exists (not_found e) = false
already_exists (invalid_state e) = false
already_exists (io e) = false
already_exists (serde e) = false
already_exists (other e) = false

module _ (R : Runtime) where
  abbrev pub tolerate : Result (Unit {0}) → Result (Unit {0})
  tolerate (ok u) = ok u
  tolerate (err e) = if already_exists e then ok tt else err e

  unfoldable pub create_database : String → Method R (Unit {0})
  unfolding database_name
  create_database id w =
      let statement = str_append "CREATE DATABASE \"" (str_append (database_name R id) "\"") in
      let r = call (R.admin_exec statement) w in (tolerate r.0, r.1)

  -- A project that is registered is only marked.
  abbrev pub register_with : Result (Project R.Json) → Project R.Json → Method R (Unit {0})
  register_with (ok there) p w = set_status R p.id provisioning w
  register_with (err e) p w = elim (Registry.create (R.now w.outer) p w.registry) [
    | ok registry ↦ (ok tt, record w { registry = registry })
    | err e' ↦ (err e', w)
  ]

  unfoldable pub register : Project R.Json → Method R (Unit {0})
  unfolding Registry.get Registry.create Registry.update_status
  register p w = register_with (Registry.get p.id w.registry) p w

  abbrev pub assign : Option String → Project R.Json → Method R (Project R.Json)
  assign (some u) p = pure p
  assign none p =
      let u = str_append "127.0.0.1:" (R.number_text (default_port R.port_base (R.bytes p.id))) in
      do set_upstream R p.id u; pure (record p { upstream = some u })

  -- A start that fails marks the project as failed.
  abbrev pub or_failed : String → Result InstanceHandle × World R → Result InstanceHandle × World R
  or_failed id (ok h, w) = (ok h, w)
  or_failed id (err e, w) = (err e, (set_status R id failed w).1)

  unfoldable pub start_or_fail : Project R.Json → Map String String → Method R InstanceHandle
  unfolding Registry.update_status
  start_or_fail p env w = or_failed p.id (call (R.driver_start p env) w)

  unfoldable pub create : Project R.Json → Method R (Unit {0})
  unfolding create_database materialize_schema register Registry.record_event Registry.set_upstream
      Registry.update_status default_port resolve_env start_or_fail refresh_gateway database_name
  create project =
      let p = record project { status = provisioning } in
      do
        create_database p.id
        materialize_schema R project
        register p
        audit R p.id "create" (("db", json_text (database_name R p.id)) ∷ [])
        p' ← assign p.upstream p
        env ← resolve_env R p'
        handle ← start_or_fail p' env
        set_upstream R p.id handle.upstream
        set_status R p.id running
        refresh_gateway R

  abbrev pub repin : String → SchemaRef → Result SchemaRef
  repin new_sha (git repo path git_ref) = ok (git repo path new_sha)
  repin new_sha (volume path) = err (invalid_state "schema_update requires a git schema source")

  unfoldable pub schema_update : String → String → Method R (Unit {0})
  unfolding Registry.get materialize_schema resolve_env Registry.set_upstream
      Registry.set_schema_version Registry.record_event refresh_gateway
  schema_update id new_sha = do
    project ← look (Registry.get id)
    schema_ref ← λ w. (repin new_sha project.schema_ref, w)
    let p = record project { schema_ref = schema_ref }
    materialize_schema R p
    env ← resolve_env R p
    handle ← call (R.driver_restart p env)
    set_upstream R id handle.upstream
    statement (λ now. Registry.set_schema_version now id new_sha)
    audit R id "schema_update" (("ref", json_text new_sha) ∷ [])
    refresh_gateway R

  unfoldable pub drop_database : String → Method R (Unit {0})
  unfolding database_name
  drop_database id = do
    attempt R (
        call (
          R.admin_exec (
            str_append "SELECT pg_terminate_backend(pid) FROM pg_stat_activity WHERE datname = '"
              (str_append (database_name R id) "' AND pid <> pg_backend_pid()"))))
    call (
        R.admin_exec
          (str_append "DROP DATABASE IF EXISTS \"" (str_append (database_name R id) "\"")))

  unfoldable pub delete : String → Bool → Method R (Unit {0})
  unfolding Registry.get drop_database Registry.record_event Registry.delete refresh_gateway
  delete id drop = do
    project ← look (Registry.get id)
    call (R.driver_stop project)
    when R drop (drop_database id)
    audit R id "delete" (("drop_database", json_bool drop) ∷ [])
    statement (λ now. Registry.delete id)
    refresh_gateway R

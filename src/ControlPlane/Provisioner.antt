-- ===== src/ControlPlane/Provisioner.antt =====
-- The lifecycle of projects (crates/atomo_control_plane/src/provisioner.rs).
use text.Mathlib.Text.{starts_with}
use atomo.Prelude.{
  string_key, ℕ, ◌+◌, ◌%◌, ◌^◌, String, Bool, true, false, ◌&&◌, not, Option, none, some, is_some,
  List, [], ◌∷◌, str_eq, filter, unwrap_or, if◌then◌else◌,
}
use atomo.Prelude.Map.{Map, insert}
use Prim.Native.String.{◌++◌ as str_append}
use atomo.ControlPlane.{
  other, Result, ok, err, Project, ProjectStatus, provisioning, running, stopped, failed, git,
  volume,
}
use atomo.ControlPlane.Registry
use atomo.ControlPlane.Runtime.{
  Detail, Runtime, World, Method, ◌>>=◌, ◌>>◌, pure, call, look, statement,
}
use atomo.ControlPlane.Gateway.{routes}

-- `fold(0u16, |acc, b| acc.wrapping_add(b as u16))`
abbrev pub sum_bytes : ℕ → List ℕ → ℕ
sum_bytes acc [] = acc
sum_bytes acc (b ∷ bs) = sum_bytes ((acc + b) % 2 ^ 16) bs

unfoldable pub default_port : ℕ → List ℕ → ℕ
default_port base bytes = (base + sum_bytes 0 bytes % 1000) % 2 ^ 16

abbrev pub is_running : ProjectStatus → Bool
is_running running = true
is_running provisioning = false
is_running stopped = false
is_running failed = false

abbrev pub non_empty : Result String → Option String
non_empty (err e) = none
non_empty (ok v) = if str_eq v "" then none else some v

abbrev pub and_then : {A : Type 0} → (String → Option A) → Option String → Option A
and_then f none = none
and_then f (some a) = f a

-- `Path::join`: an absolute path takes the place of the base.
abbrev pub join : String → String → String
join base path = if starts_with path "/" then path else str_append base (str_append "/" path)

module _ (R : Runtime) where
  abbrev pub ProjectOf : Type 0
  ProjectOf = Project R.Json

  unfoldable pub project_schema_dir : String → String
  project_schema_dir id = join R.schema_volume_root id

  unfoldable pub materialized_schema_path : ProjectOf → String
  unfolding project_schema_dir
  materialized_schema_path p = elim p.schema_ref [
    | git repo path git_ref ↦ join (project_schema_dir p.id) "schema.ts"
    | volume path ↦ path
  ]

  unfoldable pub jwt_secret_ref : String → String
  jwt_secret_ref id = str_append "/atomo/" (str_append id "/JWT_SECRET")

  abbrev pub git_call : List String → Method R (Unit {0})
  git_call args = call (R.git args)

  unfoldable pub database_name : String → String
  database_name id = str_append "atomo_" (R.replace id "-" "_")

  -- What comes of a call whose failure is passed over.
  abbrev pub attempt : Method R (Unit {0}) → Method R Bool
  attempt m w = elim (m w).0 [ ok _ ↦ (ok true, (m w).1) | err _ ↦ (ok false, (m w).1) ]

  abbrev pub when : Bool → Method R (Unit {0}) → Method R (Unit {0})
  when true m = m
  when false m = pure tt

  abbrev pub exists : String → Method R Bool
  exists path w = (ok (R.path_exists path w.outer), w)

  unfoldable pub materialize_schema : ProjectOf → Method R (Unit {0})
  unfolding project_schema_dir materialized_schema_path
  materialize_schema p = elim p.schema_ref [
    | volume path ↦ do
      there ← exists path
      (if there then pure tt else λ w. (err (other "schema volume path does not exist"), w))
    | git repo path git_ref ↦
        let checkout = join (project_schema_dir p.id) "_checkout" in
        do
          call (R.create_dir_all checkout)
          cloned ← exists (join checkout ".git")
          when (not cloned) (git_call ("clone" ∷ "--no-checkout" ∷ repo ∷ checkout ∷ []))
          shallow ←
              attempt
                (git_call ("-C" ∷ checkout ∷ "fetch" ∷ "--depth" ∷ "1" ∷ "origin" ∷ git_ref ∷ []))
          when (not shallow) (git_call ("-C" ∷ checkout ∷ "fetch" ∷ "origin" ∷ []))
          git_call ("-C" ∷ checkout ∷ "checkout" ∷ "--force" ∷ git_ref ∷ [])
          call (R.create_dir_all (project_schema_dir p.id))
          call (R.copy (join checkout path) (materialized_schema_path p))
  ]

  unfoldable pub running_projects : World R → List ProjectOf
  unfolding Registry.list
  running_projects w =
      filter (λ p. is_running p.status && is_some p.upstream) (Registry.list R.text_le w.registry)

  unfoldable pub refresh_gateway : Method R (Unit {0})
  unfolding running_projects routes
  refresh_gateway w = call (R.load (routes (running_projects w))) w

  -- The secret that is kept, or else a new one, which is kept if the store takes it.
  unfoldable pub jwt_secret : String → Method R String
  unfolding jwt_secret_ref
  jwt_secret id w =
      let r = R.secret_get (jwt_secret_ref id) w.outer in
      let fresh = R.random_secret r.1 in
      let kept = R.secret_put (jwt_secret_ref id) fresh.0 fresh.1 in
      elim (non_empty r.0) [
        | some v ↦ (ok v, record w { outer = r.1 })
        | none ↦ (ok fresh.0, record w { outer = kept.1 })
      ]

  abbrev pub insert_all : List (String × String) → Map String String → Map String String
  insert_all [] m = m
  insert_all ((k, v) ∷ rest) m = insert_all rest (insert k v m)

  abbrev pub port_of_project : ProjectOf → ℕ
  port_of_project p =
      unwrap_or (default_port R.port_base (R.bytes p.id)) (and_then R.port_of p.upstream)

  unfoldable pub resolve_env : ProjectOf → Method R (Map String String)
  unfolding materialized_schema_path default_port jwt_secret insert
  resolve_env p = do
    database_url ← call (R.secret_get p.database_url_ref)
    jwt ← jwt_secret p.id
    pure (
        insert_all (R.entries p.env) (
          insert "ATOMO_PROJECT_ID" p.id (
            insert "JWT_SECRET" jwt (
              insert "PORT" (R.number_text (port_of_project p)) (
                insert "HOST" "0.0.0.0" (
                  insert "ATOMO_SCHEMA_PATH" (materialized_schema_path p)
                    (insert "DATABASE_URL" database_url [])))))))

  abbrev pub set_status : String → ProjectStatus → Method R (Unit {0})
  set_status id status = statement (λ now. Registry.update_status now id status)

  abbrev pub set_upstream : String → String → Method R (Unit {0})
  set_upstream id upstream = statement (λ now. Registry.set_upstream now id (some upstream))

  abbrev pub audit : String → String → List (String × Detail) → Method R (Unit {0})
  audit id action detail = statement (λ now. Registry.record_event id action none (R.object detail))

  unfoldable pub start : String → Method R (Unit {0})
  unfolding Registry.get resolve_env Registry.set_upstream Registry.update_status
      Registry.record_event refresh_gateway
  start id = do
    project ← look (Registry.get id)
    env ← resolve_env project
    handle ← call (R.driver_start project env)
    set_upstream id handle.upstream
    set_status id running
    audit id "start" []
    refresh_gateway

  unfoldable pub stop : String → Method R (Unit {0})
  unfolding Registry.get Registry.update_status Registry.record_event refresh_gateway
  stop id = do
    project ← look (Registry.get id)
    call (R.driver_stop project)
    set_status id stopped
    audit id "stop" []
    refresh_gateway

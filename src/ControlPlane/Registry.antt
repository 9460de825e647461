-- ===== src/ControlPlane/Registry.antt =====
-- The registry of projects (crates/atomo_control_plane/src/registry.rs): two tables, by what the
-- statements do to their rows. A lost connection is not modelled.
pub mod Keys
use atomo.Prelude.{
  string_key, ℕ, String, Bool, true, false, ◌||◌, not, Option, none, some, List, [], ◌∷◌, ◌++◌,
  str_eq, filter, contains, if◌then◌else◌, is_some_and,
}
use atomo.Prelude.Sorting.{sort_by}
use atomo.ControlPlane.{
  ControlPlaneError, database, not_found, Result, ok, err, Project, ProjectStatus, DesiredState,
}

pub record Event (Json : Type 0) : Type 0 where
  pub project_id : String
  pub action : String
  pub actor : Option String
  pub detail : Json

pub record ProjectRegistry (Json : Type 0) : Type 0 where
  pub projects : List (Project Json)
  pub events : List (Event Json)

abbrev pub same_hostname : Option String → Option String → Bool
same_hostname (some a) (some b) = str_eq a b
same_hostname (some a) none = false
same_hostname none b = false

module _ {Json : Type 0} where
  unfoldable pub find : String → List (Project Json) → Option (Project Json)
  find id [] = none
  find id (p ∷ ps) = if str_eq p.id id then some p else find id ps

  -- A row with the key or the hostname of one that is there is refused.
  unfoldable pub clashes : Project Json → List (Project Json) → Bool
  clashes p [] = false
  clashes p (q ∷ ps) = str_eq q.id p.id || same_hostname q.hostname p.hostname || clashes p ps

  unfoldable pub create : ℕ → Project Json → ProjectRegistry Json → Result (ProjectRegistry Json)
  unfolding clashes
  create now p r =
      if clashes p r.projects
      then err (database "duplicate key value violates unique constraint")
      else ok (record r {
        projects = r.projects ++ (record p { created_at = now; updated_at = now }) ∷ [];
      })

  abbrev pub found : String → Option (Project Json) → Result (Project Json)
  found id none = err (not_found id)
  found id (some p) = ok p

  unfoldable pub get : String → ProjectRegistry Json → Result (Project Json)
  unfolding find
  get id r = found id (find id r.projects)

  -- `ORDER BY id`
  unfoldable pub list : (String → String → Bool) → ProjectRegistry Json → List (Project Json)
  unfolding sort_by
  list text_le r = sort_by (λ p q. text_le p.id q.id) r.projects

  abbrev pub has_hostname : String → Project Json → Bool
  has_hostname hostname p =
      is_some_and (λ h. str_eq h hostname) p.hostname || contains p.aliases hostname

  -- `LIMIT 1`
  abbrev pub first : List (Project Json) → Option (Project Json)
  first [] = none
  first (p ∷ ps) = some p

  unfoldable pub resolve_by_hostname : String → ProjectRegistry Json → Option (Project Json)
  resolve_by_hostname hostname r = first (filter (has_hostname hostname) r.projects)

  -- `UPDATE projects SET ... WHERE id = $1`
  unfoldable pub update_where :
      String → (Project Json → Project Json) → List (Project Json) → List (Project Json)
  update_where id f [] = []
  update_where id f (p ∷ ps) =
      let rest = update_where id f ps in if str_eq p.id id then f p ∷ rest else p ∷ rest

  abbrev pub update :
      String → (Project Json → Project Json) → ProjectRegistry Json → ProjectRegistry Json
  update id f r = record r { projects = update_where id f r.projects }

  unfoldable pub update_status :
      ℕ → String → ProjectStatus → ProjectRegistry Json → ProjectRegistry Json
  unfolding update_where
  update_status now id status r = update id (λ p. record p { status = status; updated_at = now }) r

  unfoldable pub set_desired_state :
      ℕ → String → DesiredState → ProjectRegistry Json → ProjectRegistry Json
  unfolding update_where
  set_desired_state now id desired r =
      update id (λ p. record p { desired_state = desired; updated_at = now }) r

  unfoldable pub set_upstream :
      ℕ → String → Option String → ProjectRegistry Json → ProjectRegistry Json
  unfolding update_where
  set_upstream now id upstream r =
      update id (λ p. record p { upstream = upstream; updated_at = now }) r

  unfoldable pub set_schema_version :
      ℕ → String → String → ProjectRegistry Json → ProjectRegistry Json
  unfolding update_where
  set_schema_version now id version r =
      update id (λ p. record p { schema_version = some version; updated_at = now }) r

  unfoldable pub set_last_health : ℕ → String → Json → ProjectRegistry Json → ProjectRegistry Json
  unfolding update_where
  set_last_health now id health r =
      update id (λ p. record p { last_health = some health; updated_at = now }) r

  unfoldable pub delete : String → ProjectRegistry Json → ProjectRegistry Json
  delete id r = record r { projects = filter (λ p. not (str_eq p.id id)) r.projects }

  unfoldable pub record_event :
      String → String → Option String → Json → ProjectRegistry Json → ProjectRegistry Json
  record_event project_id action actor detail r = record r {
    events =
        r.events
        ++ (record { project_id = project_id; action = action; actor = actor; detail = detail })
          ∷ [];
  }

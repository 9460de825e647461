-- ===== src/ControlPlane/Registry/Keys.antt =====
-- Ids and hostnames of the registry are unique (crates/atomo_control_plane/src/registry.rs).
use atomo.Prelude.{
  ℕ, String, Bool, false, Option, List, [], ◌∷◌, ◌++◌, filter, All, ◌≡◌, refl, arith, str_eq,
  Bool-cases, inl, inr,
}
use atomo.ControlPlane.{Result, ok, err, Project, ProjectStatus, DesiredState}
use atomo.ControlPlane.Registry.{
  ProjectRegistry, same_hostname, clashes, create, update_where, update_status, set_desired_state,
  set_upstream, set_schema_version, set_last_health, delete, record_event,
}

-- The changes of a statement on the registry: what `create` refuses changes nothing.
pub data Statement (Json : Type 0) : Type 0 where
  creates : ℕ → Project Json → Statement Json
  sets_status : ℕ → String → ProjectStatus → Statement Json
  sets_desired : ℕ → String → DesiredState → Statement Json
  sets_upstream : ℕ → String → Option String → Statement Json
  sets_version : ℕ → String → String → Statement Json
  sets_health : ℕ → String → Json → Statement Json
  deletes : String → Statement Json
  audits : String → String → Option String → Json → Statement Json

module _ {Json : Type 0} where
  -- Two rows that may stand in one table.
  abbrev pub Differ : Project Json → Project Json → Type 0
  Differ p q = (str_eq p.id q.id ≡ false) × (same_hostname p.hostname q.hostname ≡ false)

  abbrev pub IsUnique : List (Project Json) → Type 0
  IsUnique [] = Unit
  IsUnique (p ∷ ps) = All (Differ p) ps × IsUnique ps

  abbrev pub or_same : ProjectRegistry Json → Result (ProjectRegistry Json) → ProjectRegistry Json
  or_same r (ok r') = r'
  or_same r (err e) = r

  unfoldable pub execute : Statement Json → ProjectRegistry Json → ProjectRegistry Json
  unfolding create update_status set_desired_state set_upstream set_schema_version set_last_health
      delete record_event
  execute (creates now p) r = or_same r (create now p r)
  execute (sets_status now id status) r = update_status now id status r
  execute (sets_desired now id desired) r = set_desired_state now id desired r
  execute (sets_upstream now id upstream) r = set_upstream now id upstream r
  execute (sets_version now id version) r = set_schema_version now id version r
  execute (sets_health now id health) r = set_last_health now id health r
  execute (deletes id) r = delete id r
  execute (audits id action actor detail) r = record_event id action actor detail r

  unfoldable pub execute_all : List (Statement Json) → ProjectRegistry Json → ProjectRegistry Json
  unfolding execute
  execute_all [] r = r
  execute_all (s ∷ rest) r = execute_all rest (execute s r)

  -- A statement that leaves ids and hostnames as they are.
  abbrev SameKeys : (Project Json → Project Json) → Type 0
  SameKeys f = (p : Project Json) → ((f p).id ≡ p.id) × ((f p).hostname ≡ p.hostname)

  All-update_where :
      (id : String) (f : Project Json → Project Json)
      → SameKeys f
      → (q : Project Json) (ps : List (Project Json)) → All (Differ q) ps
      → All (Differ q) (update_where id f ps)
  unfolding update_where
  All-update_where id f same q [] h = tt
  All-update_where id f same q (p ∷ ps) h = elim (Bool-cases (str_eq p.id id)) [
    | inl here ↦ rw (here, (same p).0, (same p).1) (h.0, All-update_where id f same q ps h.1)
    | inr other ↦ rw other (h.0, All-update_where id f same q ps h.1)
  ]

  update_where-IsUnique :
      (id : String) (f : Project Json → Project Json)
      → SameKeys f
      → (ps : List (Project Json)) → IsUnique ps
      → IsUnique (update_where id f ps)
  unfolding update_where
  update_where-IsUnique id f same [] h = tt
  update_where-IsUnique id f same (p ∷ ps) h = elim (Bool-cases (str_eq p.id id)) [
    | inl here ↦
        rw (here, (same p).0, (same p).1)
          (All-update_where id f same p ps h.0, update_where-IsUnique id f same ps h.1)
    | inr other ↦
        rw other (All-update_where id f same p ps h.0, update_where-IsUnique id f same ps h.1)
  ]

  All-append :
      (q p : Project Json) (ps : List (Project Json))
      → All (Differ q) ps
      → Differ q p
      → All (Differ q) (ps ++ p ∷ [])
  All-append q p [] h d = (d, tt)
  All-append q p (x ∷ ps) h d = (h.0, All-append q p ps h.1 d)

  clashes-All :
      (p : Project Json) (ps : List (Project Json))
      → clashes p ps ≡ false
      → All (λ q. Differ q p) ps
  unfolding clashes
  clashes-All p [] h = tt
  clashes-All p (q ∷ ps) h = (ground (arith, h), clashes-All p ps (ground (arith, h)))

  append-IsUnique :
      (p : Project Json) (ps : List (Project Json))
      → IsUnique ps
      → All (λ q. Differ q p) ps
      → IsUnique (ps ++ p ∷ [])
  append-IsUnique p [] h d = (tt, tt)
  append-IsUnique p (q ∷ ps) h d = (All-append q p ps h.0 d.0, append-IsUnique p ps h.1 d.1)

  All-kept :
      (keep : Project Json → Bool) (q : Project Json) (ps : List (Project Json))
      → All (Differ q) ps
      → All (Differ q) (filter keep ps)
  All-kept keep q [] h = tt
  All-kept keep q (p ∷ ps) h = ground (arith, h.0, All-kept keep q ps h.1)

  filter-IsUnique :
      (keep : Project Json → Bool) (ps : List (Project Json))
      → IsUnique ps
      → IsUnique (filter keep ps)
  filter-IsUnique keep [] h = tt
  filter-IsUnique keep (p ∷ ps) h = elim (Bool-cases (keep p)) [
    | inl kept ↦ rw kept (All-kept keep p ps h.0, filter-IsUnique keep ps h.1)
    | inr gone ↦ rw gone (filter-IsUnique keep ps h.1)
  ]

  create-IsUnique :
      (now : ℕ) (p : Project Json) (r : ProjectRegistry Json)
      → IsUnique r.projects
      → IsUnique (or_same r (create now p r)).projects
  unfolding create
  create-IsUnique now p r h = elim (Bool-cases (clashes p r.projects)) [
    | inl refused ↦ rw refused h
    | inr fine ↦ rw fine (
        append-IsUnique (record p { created_at = now; updated_at = now }) r.projects h
          (clashes-All p r.projects fine))
  ]

  execute-IsUnique :
      (s : Statement Json) (r : ProjectRegistry Json)
      → IsUnique r.projects
      → IsUnique (execute s r).projects
  unfolding execute update_status set_desired_state set_upstream set_schema_version set_last_health
      delete record_event
  execute-IsUnique (creates now p) r h = create-IsUnique now p r h
  execute-IsUnique (sets_status now id status) r h =
      update_where-IsUnique id _ (λ p. (refl, refl)) r.projects h
  execute-IsUnique (sets_desired now id desired) r h =
      update_where-IsUnique id _ (λ p. (refl, refl)) r.projects h
  execute-IsUnique (sets_upstream now id upstream) r h =
      update_where-IsUnique id _ (λ p. (refl, refl)) r.projects h
  execute-IsUnique (sets_version now id version) r h =
      update_where-IsUnique id _ (λ p. (refl, refl)) r.projects h
  execute-IsUnique (sets_health now id health) r h =
      update_where-IsUnique id _ (λ p. (refl, refl)) r.projects h
  execute-IsUnique (deletes id) r h = filter-IsUnique _ r.projects h
  execute-IsUnique (audits id action actor detail) r h = h

  -- After any statements on a registry with unique ids and hostnames, no two projects have one id or
  -- one hostname.
  pub execute_all-IsUnique :
      (statements : List (Statement Json)) (r : ProjectRegistry Json)
      → IsUnique r.projects
      → IsUnique (execute_all statements r).projects
  unfolding execute_all
  execute_all-IsUnique [] r h = h
  execute_all-IsUnique (s ∷ rest) r h =
      execute_all-IsUnique rest (execute s r) (execute-IsUnique s r h)

-- ===== src/Projections/Replay/Rebuilding.antt =====
-- What a rebuild of all projections leaves in their tables
-- (crates/atomo_projectors/src/projector_manager.rs).
use atomo.Prelude.{
  string_key, ℕ, zero, suc, String, Bool, true, false, Option, none, some, is_some, List, [], ◌∷◌,
  map, All, contains, get_elem?, filter, str_eq, ◌≡◌, ◌≢◌, ◌⊎◌, inl, inr, refl, sym, ap, ap₂,
  some-injective, is_some_and, ◌∙◌, subst, arith, eq_iff, Bool-cases, Option-cases,
}
use atomo.Prelude.Map.{get, get-insert}
use atomo.Prelude.Sorting.{sort_by}
use atomo.Projections.{ProjectionTable, Result, ok, err, and_then}
use atomo.Projections.Replay.{
  Coverage, is_incomplete, is_unavailable, require_complete_history, LogEntry, entry_le, rebuild_in,
  preflight, rebuild_each, commit, rebuild_all,
}
use atomo.Projections.Replay.Tables.{TableProjection, Tables, rebuild_at, projection_of}
use atomo.Projections.Replay.Presence.{present, chain, from_ok, rebuild_in_lem}

-- A model whose history is known to be kept in full from its beginning, or is not known of.
abbrev pub IsComplete : String → Coverage → Type 0
IsComplete model none = Unit
IsComplete model (some coverage) =
    (get model coverage ≡ none) ⊎ (get model coverage ≡ some ("full", true))

-- No two of the projections have one table.
abbrev pub HaveOwnTables : List TableProjection → Type 0
HaveOwnTables [] = Unit
HaveOwnTables (p ∷ ps) = All (λ q. p.table_name ≢ q.table_name) ps × HaveOwnTables ps

-- The events of a model, in order.
abbrev pub history : String → List LogEntry → List LogEntry
history model log = sort_by entry_le (filter (λ e. str_eq e.model_name model) log)

kept_in_full : (r : String × Bool) → is_incomplete r ≡ false → some r ≡ some ("full", true)
kept_in_full (mode, complete) h =
    ap₂ (λ (m : String) (c : Bool). some (m, c)) ((eq_iff mode "full").0 (ground (arith, h)))
      (ground (arith, h))

apart : (a b : String) → a ≢ b → str_eq b a ≡ false
apart a b h = elim (Bool-cases (str_eq b a)) [
  | inl same ↦ absurd (h (sym ((eq_iff b a).0 same)))
  | inr other ↦ other
]

available-IsComplete :
    (model : String) (coverage : Coverage)
    → is_unavailable model coverage ≡ false
    → IsComplete model coverage
available-IsComplete model none h = tt
available-IsComplete model (some coverage) h = elim (Option-cases (get model coverage)) [
  | inl absent ↦ inl absent
  | inr ((mode, complete), there) ↦
      inr (there ∙ kept_in_full (mode, complete) (ap (is_some_and is_incomplete) (sym there) ∙ h))
]

module _ (coverage : Coverage) (log : List LogEntry) where
  preflight_lem :
      (ps : List TableProjection) (i : ℕ) (p : TableProjection)
      → preflight coverage (map (projection_of coverage log) ps) ≡ ok tt
      → get_elem? ps i ≡ some p
      → is_unavailable p.source_model coverage ≡ false
  unfolding preflight require_complete_history projection_of
  preflight_lem [] i p h at = ground (arith, at)
  preflight_lem (q ∷ ps) zero p h at = elim (Bool-cases (is_unavailable q.source_model coverage)) [
    | inl lacks ↦ ground (arith, h, lacks)
    | inr full ↦
        subst (λ (x : TableProjection). is_unavailable x.source_model coverage ≡ false)
          (some-injective q p at) full
  ]
  preflight_lem (q ∷ ps) (suc i) p h at =
      elim (Bool-cases (is_unavailable q.source_model coverage)) [
        | inl lacks ↦ ground (arith, h, lacks)
        | inr full ↦ preflight_lem ps i p (ground (arith, h, full)) at
      ]

  -- The rebuild of one projection leaves the tables of others.
  rebuild_at_kept :
      (p : TableProjection) (name : String) (o : Option ProjectionTable) (ts ts' : Tables)
      → name ≢ p.table_name
      → rebuild_at p coverage log o ts ≡ ok ts'
      → get name ts' ≡ get name ts
  rebuild_at_kept p name none ts ts' other h =
      let (u, checked, refused) =
        chain (require_complete_history p.source_model coverage) _ ts' h in
      ground (arith, refused)
  rebuild_at_kept p name (some t) ts ts' other h =
      let (t', built, put) = chain (rebuild_in p.columns p.source_model coverage log t) _ ts' h in
      from_ok (λ (x : Tables). get name x ≡ get name ts) put
        (get-insert p.table_name name t' ts ∙ rw (apart name p.table_name other) refl)

  rebuild_each_kept :
      (ps : List TableProjection) (name : String) (ts ts' : Tables)
      → All (λ q. name ≢ q.table_name) ps
      → rebuild_each (map (projection_of coverage log) ps) ts ≡ ok ts'
      → get name ts' ≡ get name ts
  unfolding rebuild_each projection_of
  rebuild_each_kept [] name ts ts' others h =
      from_ok (λ (x : Tables). get name x ≡ get name ts) h refl
  rebuild_each_kept (q ∷ ps) name ts ts' others h =
      let (ts₁, first, rest) = chain (rebuild_at q coverage log (get q.table_name ts) ts) _ ts' h in
      rebuild_each_kept ps name ts₁ ts' others.1 rest
      ∙ rebuild_at_kept q name (get q.table_name ts) ts ts₁ others.0 first

  -- A table that was rebuilt.
  abbrev Built : TableProjection → Tables → Type 0
  Built p ts' =
      (t : ProjectionTable) × (t' : ProjectionTable) × (rebuild_in p.columns p.source_model coverage
          log t
        ≡ ok t')
      × (get p.table_name ts' ≡ some t')

  rebuild_at-Built :
      (p : TableProjection) (o : Option ProjectionTable) (ts ts' : Tables)
      → rebuild_at p coverage log o ts ≡ ok ts'
      → Built p ts'
  rebuild_at-Built p none ts ts' h =
      let (u, checked, refused) =
        chain (require_complete_history p.source_model coverage) _ ts' h in
      ground (arith, refused)
  rebuild_at-Built p (some t) ts ts' h =
      let (t', built, put) = chain (rebuild_in p.columns p.source_model coverage log t) _ ts' h in
      (
        t,
        t',
        built,
        from_ok (λ (x : Tables). get p.table_name x ≡ some t') put
            (get-insert p.table_name p.table_name t' ts
              ∙ rw ((eq_iff p.table_name p.table_name).1 refl) refl),
      )

  rebuild_each-Built :
      (ps : List TableProjection) (i : ℕ) (p : TableProjection) (ts ts' : Tables)
      → HaveOwnTables ps
      → get_elem? ps i ≡ some p
      → rebuild_each (map (projection_of coverage log) ps) ts ≡ ok ts'
      → Built p ts'
  unfolding rebuild_each projection_of
  rebuild_each-Built [] i p ts ts' own at h = ground (arith, at)
  rebuild_each-Built (q ∷ ps) zero p ts ts' own at h =
      let (ts₁, first, rest) = chain (rebuild_at q coverage log (get q.table_name ts) ts) _ ts' h in
      let (t, t', built, there) = rebuild_at-Built q (get q.table_name ts) ts ts₁ first in
      subst (λ (x : TableProjection). Built x ts') (some-injective q p at)
        (t, t', built, rebuild_each_kept ps q.table_name ts₁ ts' own.0 rest ∙ there)
  rebuild_each-Built (q ∷ ps) (suc i) p ts ts' own at h =
      let (ts₁, first, rest) = chain (rebuild_at q coverage log (get q.table_name ts) ts) _ ts' h in
      rebuild_each-Built ps i p ts₁ ts' own.1 at rest

committed : {S : Type 0} (r : Result S) (s s' : S) → commit r s ≡ (ok tt, s') → r ≡ ok s'
committed (ok s₁) s s' h = ap (λ x. ok x.1) h
committed (err e) s s' h = ground (arith, ap (λ x. x.0) h)

-- If a rebuild of all projections over tables of their own succeeds, then each of them that has a column
-- `id` has a model whose history is complete, or not known of, and in its table an entity has a row exactly if the history of its
-- model says so: read in order, the last event that makes or ends it makes it.
pub rebuild_all_lem :
    (coverage : Coverage) (log : List LogEntry) (ps : List TableProjection) (ts ts' : Tables)
    (i : ℕ) (p : TableProjection) (id : String)
    → HaveOwnTables ps
    → get_elem? ps i ≡ some p
    → contains p.columns "id" ≡ true
    → rebuild_all coverage (map (projection_of coverage log) ps) ts ≡ (ok tt, ts')
    → IsComplete p.source_model coverage
      × ((t : ProjectionTable) × (get p.table_name ts' ≡ some t)
          × (is_some (get id t.rows) ≡ present id (history p.source_model log) false))
unfolding rebuild_all
rebuild_all_lem coverage log ps ts ts' i p id own at has h =
    let qs = map (projection_of coverage log) ps in
    let (u, ready, each) =
      chain (preflight coverage qs) (λ u. rebuild_each qs ts) ts'
        (committed (and_then (preflight coverage qs) (λ u. rebuild_each qs ts)) ts ts' h) in
    let (t, t', built, there) = rebuild_each-Built coverage log ps i p ts ts' own at each in
    (
      available-IsComplete p.source_model coverage (preflight_lem coverage log ps i p ready at),
      (t', there, rebuild_in_lem p.columns p.source_model coverage log t t' id has built),
    )

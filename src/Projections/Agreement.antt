-- ===== src/Projections/Agreement.antt =====
-- Projections of current state against their models
-- (crates/atomo_projectors/src/current_state.rs).
pub mod Following
use atomo.Prelude.{
  string_key, ℕ, String, Bool, true, false, ◌&&◌, not, is_some, Option, none, some, some-injective,
  unwrap_or, List, [], ◌∷◌, contains, filter, str_eq, if◌then◌else◌, ◌≡◌, ◌≢◌, refl, sym, ap, ◌∙◌,
  subst, arith, eq_iff, Bool-cases, Option-cases, inl, inr,
}
use atomo.Prelude.Map.{Map, get, insert, remove, get-insert, get-remove}
use atomo.Prelude.Map.Distinct.{IsDistinct}
use atomo.Projections.{
  BaseRow, Row, ProjectionTable, ProjectionError, id_required, all_known, distinct, Result, ok, err,
  and_then, can_insert, value,
}
use atomo.Projections.CurrentState.{
  Database, cell, live_row, live, unless_deleted, set_all, upsert, is_cell, same_cells,
  is_unchanged, sync_row, sync_rows, is_live, prune, created, add_columns, synced, can_sync,
  all_among, committed, initialize_and_sync, refreshed, refresh,
}
use atomo.Projections.Rows.{
  shown, wanted, InStep, value-set_all, get-prune, get-live, live-IsDistinct, shown-sync_rows,
}

-- A projection that can be written, and agrees with the model at each id that is not `excepted`.
abbrev pub IsCurrent : List String → (String → Bool) → Database → Type 0
IsCurrent cs excepted d =
    (t : ProjectionTable) × (d.projection ≡ some t)
    × (can_sync cs d.source_columns t ≡ true)
    × ((id : String) → excepted id ≡ false → InStep cs d.source t.rows id)

-- The cell that the projection of a database has.
abbrev pub rows_of : Option ProjectionTable → Map String Row
rows_of none = []
rows_of (some t) = t.rows

abbrev pub projected : String → String → Database → Option (Option String)
projected c id d = shown c id (get id (rows_of d.projection))

pub current_cell :
    (cs : List String) (excepted : String → Bool) (d : Database) (id c : String)
    → IsCurrent cs excepted d
    → excepted id ≡ false
    → contains cs c ≡ true
    → projected c id d ≡ wanted c id (live_row id d.source)
unfolding InStep
current_cell cs excepted d id c current free has =
    ap (λ (o : Option ProjectionTable). shown c id (get id (rows_of o))) current.1
    ∙ current.3 id free c has

all_known-rows :
    (cs : List String) (t : ProjectionTable) (rows : Map String Row)
    → can_insert cs (record t { rows = rows }) ≡ can_insert cs t
unfolding can_insert
all_known-rows cs t rows =
    ap (λ (k : Bool). contains cs "id" && (distinct cs && (t.has_key && k))) (known cs)
  where
    known : (ds : List String) → all_known ds (record t { rows = rows }) ≡ all_known ds t
    known [] = refl
    known (d ∷ ds) = ap (λ (k : Bool). is_some (get d t.columns) && k) (known ds)

pub can_sync-rows :
    (cs columns : List String) (t : ProjectionTable) (rows : Map String Row)
    → can_sync cs columns (record t { rows = rows }) ≡ can_sync cs columns t
unfolding can_sync
can_sync-rows cs columns t rows =
    ap (λ (b : Bool). b && (contains columns "deleted_at" && all_among cs columns))
      (all_known-rows cs t rows)

InStep-synced :
    (cs : List String) (source : Map String BaseRow) (rows : Map String Row) (id : String)
    → IsDistinct source
    → InStep cs source (prune source (sync_rows cs (live source) rows).1) id
unfolding InStep
InStep-synced cs source rows id unique c h = elim (Option-cases (live_row id source)) [
  | inl absent ↦ ground (arith, absent, get-prune source (sync_rows cs (live source) rows).1 id)
  | inr (b, there) ↦ ground (
    arith,
    there,
    get-prune source (sync_rows cs (live source) rows).1 id,
    shown-sync_rows cs (live source) rows id c b (live-IsDistinct source unique)
        (get-live source id unique ∙ there) h,
  )
]

synced_lem :
    (cs columns : List String) (source : Map String BaseRow) (t : ProjectionTable)
    (r : ℕ × ProjectionTable)
    → IsDistinct source
    → synced cs columns source t ≡ ok r
    → (can_sync cs columns r.1 ≡ true) × ((id : String) → InStep cs source r.1.rows id)
unfolding synced
synced_lem cs columns source t r unique h =
    let rows = (sync_rows cs (live source) t.rows).1 in
    elim (Bool-cases (can_sync cs columns t)) [
      | inl can ↦
          subst
            (λ (p : ℕ × ProjectionTable).
              (can_sync cs columns p.1 ≡ true) × ((id : String) → InStep cs source p.1.rows id))
            {x = ((sync_rows cs (live source) t.rows).0, record t { rows = prune source rows })}
            {y = r} (ground (arith, can, h))
            (
              can_sync-rows cs columns t (prune source rows) ∙ can,
              λ id. InStep-synced cs source t.rows id unique,
            )
      | inr cannot ↦ ground (arith, cannot, h)
    ]

-- What a synchronisation comes to.
abbrev pub Settles : List String → Database → Result ℕ × Database → Type 0
Settles cs d o =
    ((n : ℕ) → o.0 ≡ ok n → IsCurrent cs (λ id. false) o.1)
    × ((e : ProjectionError) → o.0 ≡ err e → o.1 ≡ d)

chained :
    (cs : List String) (d : Database)
    → IsDistinct d.source
    → (m : Result ProjectionTable) (r : ℕ × ProjectionTable)
    → and_then m (λ t. synced cs d.source_columns d.source t) ≡ ok r
    → (can_sync cs d.source_columns r.1 ≡ true) × ((id : String) → InStep cs d.source r.1.rows id)
chained cs d unique (ok t) r h = synced_lem cs d.source_columns d.source t r unique h
chained cs d unique (err e) r h = ground (arith, h)

settled :
    (cs : List String) (d : Database) (o : Result (ℕ × ProjectionTable))
    → ((r : ℕ × ProjectionTable)
        → o ≡ ok r
        → (can_sync cs d.source_columns r.1 ≡ true)
          × ((id : String) → InStep cs d.source r.1.rows id))
    → Settles cs d (committed o d)
settled cs d (ok (n, t)) good =
    let g = good (n, t) refl in (λ _ _. (t, refl, g.0, λ id _. g.1 id), λ e h. ground (arith, h))
settled cs d (err e) good = (λ n h. ground (arith, h), λ _ _. refl)

pub initialize_and_sync-Settles :
    (cs : List String) (d : Database)
    → IsDistinct d.source
    → Settles cs d (initialize_and_sync cs d)
unfolding initialize_and_sync
initialize_and_sync-Settles cs d unique =
    let m = and_then (created cs d.projection) (λ t. add_columns cs t) in
    elim (Bool-cases (contains cs "id")) [
      | inl has ↦
          let o = and_then m (λ t. synced cs d.source_columns d.source t) in
          subst (λ (b : Bool). Settles cs d (if not b then (err id_required, d) else committed o d))
            (sym has) (settled cs d o (chained cs d unique m))
      | inr lacks ↦ (λ n h. ground (arith, lacks, h), λ e h. ground (arith, lacks, h))
    ]

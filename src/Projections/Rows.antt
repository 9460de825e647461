-- ===== src/Projections/Rows.antt =====
-- What the statements of a synchronisation do to the rows of a projection
-- (crates/atomo_projectors/src/current_state.rs).
use atomo.Prelude.{
  string_key, String, Bool, true, false, ◌&&◌, Option, none, some, unwrap_or, List, [], ◌∷◌,
  contains, str_eq, if◌then◌else◌, ◌≡◌, refl, ap, ◌∙◌, subst, arith, eq_iff, Bool-cases,
  Option-cases, inl, inr,
}
use atomo.Prelude.Map.{Map, get, get-insert}
use atomo.Prelude.Map.Distinct.{IsDistinct}
use atomo.Projections.{BaseRow, Row, value}
use atomo.Projections.CurrentState.{
  cell, live_row, live, set_all, upsert, is_cell, same_cells, sync_row, sync_rows, is_live, prune,
}

-- The cell that a projection has of a row, if it has the row.
abbrev pub shown : String → String → Option Row → Option (Option String)
shown c id none = none
shown c id (some r) = some (value c id r)

-- The cell that it should have.
abbrev pub wanted : String → String → Option BaseRow → Option (Option String)
wanted c id none = none
wanted c id (some b) = some (some (cell c id b))

-- The rows of a projection agree with the model at an id.
unfoldable pub InStep : List String → Map String BaseRow → Map String Row → String → Type 0
InStep cs source rows id =
    (c : String)
    → contains cs c ≡ true
    → shown c id (get id rows) ≡ wanted c id (live_row id source)

and-true : (a b : Bool) → a && b ≡ true → (a ≡ true) × (b ≡ true)
and-true a b h = (ground (arith, h), ground (arith, h))

pub value-set_all :
    (cs : List String) (id : String) (b : BaseRow) (r : Row) (c : String)
    → contains cs c ≡ true
    → value c id (set_all cs id b r) ≡ some (cell c id b)
unfolding set_all
value-set_all [] id b r c h = ground (arith, h)
value-set_all (d ∷ cs) id b r c h = ground (
  arith,
  h,
  eq_iff d c,
  eq_iff d "id",
  eq_iff c "id",
  value-set_all cs id b r c,
  get-insert d c (cell d id b) (set_all cs id b r),
)

is_cell_lem : (v : String) (o : Option String) → is_cell v o ≡ true → o ≡ some v
is_cell_lem v none h = ground (arith, h)
is_cell_lem v (some u) h = ap some ((eq_iff u v).0 h)

value-same_cells :
    (cs : List String) (id : String) (b : BaseRow) (r : Row) (c : String)
    → same_cells cs id b r ≡ true
    → contains cs c ≡ true
    → value c id r ≡ some (cell c id b)
value-same_cells [] id b r c same h = ground (arith, h)
value-same_cells (d ∷ cs) id b r c same h =
    let both = and-true (is_cell (cell d id b) (value d id r)) (same_cells cs id b r) same in
    elim (Bool-cases (str_eq d c)) [
      | inl here ↦
          subst (λ (e : String). value e id r ≡ some (cell e id b)) ((eq_iff d c).0 here)
            (is_cell_lem (cell d id b) (value d id r) both.0)
      | inr other ↦ value-same_cells cs id b r c both.1 (ground (arith, h, other))
    ]

-- After the statement for one row, the projection agrees with it, and keeps its other rows.
shown-sync_row :
    (cs : List String) (id : String) (b : BaseRow) (rows : Map String Row) (c : String)
    → contains cs c ≡ true
    → shown c id (get id (sync_row cs id b rows).1) ≡ some (some (cell c id b))
unfolding sync_row upsert
shown-sync_row cs id b rows c h = elim (Option-cases (get id rows)) [
  | inl absent ↦ ground (
    arith,
    absent,
    eq_iff id id,
    get-insert id id (set_all cs id b []) rows,
    value-set_all cs id b [] c h,
  )
  | inr (r, there) ↦ ground (
    arith,
    there,
    eq_iff id id,
    get-insert id id (set_all cs id b r) rows,
    value-set_all cs id b r c h,
    λ (same : same_cells cs id b r ≡ true). value-same_cells cs id b r c same h,
  )
]

get-sync_row :
    (cs : List String) (id j : String) (b : BaseRow) (rows : Map String Row)
    → str_eq id j ≡ false
    → get j (sync_row cs id b rows).1 ≡ get j rows
unfolding sync_row upsert
get-sync_row cs id j b rows other =
    ground (arith, other, get-insert id j (set_all cs id b (unwrap_or [] (get id rows))) rows)

get-sync_rows :
    (cs : List String) (source : Map String BaseRow) (rows : Map String Row) (id : String)
    → get id source ≡ none
    → get id (sync_rows cs source rows).1 ≡ get id rows
unfolding sync_rows get
get-sync_rows cs [] rows id h = refl
get-sync_rows cs ((j, b) ∷ rest) rows id h =
    get-sync_rows cs rest (sync_row cs j b rows).1 id (ground (arith, h))
    ∙ get-sync_row cs j id b rows (ground (arith, h))

pub shown-sync_rows :
    (cs : List String) (source : Map String BaseRow) (rows : Map String Row) (id c : String)
    (b : BaseRow)
    → IsDistinct source
    → get id source ≡ some b
    → contains cs c ≡ true
    → shown c id (get id (sync_rows cs source rows).1) ≡ some (some (cell c id b))
unfolding sync_rows get IsDistinct
shown-sync_rows cs [] rows id c b unique there h = ground (arith, there)
shown-sync_rows cs ((j, e) ∷ rest) rows id c b unique there h = elim (Bool-cases (str_eq j id)) [
  | inl same ↦
      let here =
        ap (shown c j) (get-sync_rows cs rest (sync_row cs j e rows).1 j unique.0)
        ∙ shown-sync_row cs j e rows c h in
      let after = (sync_rows cs rest (sync_row cs j e rows).1).1 in
      subst (λ (x : BaseRow). shown c id (get id after) ≡ some (some (cell c id x))) {x = e} {y = b}
        (ground (arith, same, there))
        (subst (λ (k : String). shown c k (get k after) ≡ some (some (cell c k e)))
          ((eq_iff j id).0 same) here)
  | inr other ↦
      shown-sync_rows cs rest (sync_row cs j e rows).1 id c b unique.1
        (ground (arith, there, other)) h
]

pub get-prune :
    (source : Map String BaseRow) (rows : Map String Row) (id : String)
    → get id (prune source rows) ≡ (if is_live id source then get id rows else none)
unfolding prune get
get-prune source [] id = ground arith
get-prune source ((j, r) ∷ rest) id = elim (Bool-cases (str_eq j id)) [
  | inl same ↦
      let is = ap (λ (k : String). is_live k source) ((eq_iff j id).0 same) in
      ground (arith, same, is, get-prune source rest id)
  | inr other ↦ ground (arith, other, get-prune source rest id)
]

pub get-live :
    (source : Map String BaseRow) (id : String)
    → IsDistinct source
    → get id (live source) ≡ live_row id source
unfolding get IsDistinct
get-live [] id unique = refl
get-live ((j, b) ∷ rest) id unique = elim (Bool-cases (str_eq j id)) [
  | inl same ↦
      let at = ap (λ (k : String). get k rest) ((eq_iff j id).0 same) in
      ground (arith, same, at, unique.0, get-live rest id unique.1)
  | inr other ↦ ground (arith, other, get-live rest id unique.1)
]

pub live-IsDistinct : (source : Map String BaseRow) → IsDistinct source → IsDistinct (live source)
unfolding IsDistinct
live-IsDistinct [] unique = tt
live-IsDistinct ((j, b) ∷ rest) unique =
    ground (arith, unique.0, get-live rest j unique.1, live-IsDistinct rest unique.1)

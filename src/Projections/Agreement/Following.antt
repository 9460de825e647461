-- ===== src/Projections/Agreement/Following.antt =====
-- Projections of current state through histories (crates/atomo_projectors/src/current_state.rs).
use atomo.Prelude.{
  string_key, ℕ, zero, suc, String, Bool, true, false, ◌||◌, not, Option, none, some, unwrap_or,
  List, [], ◌∷◌, contains, get_elem?, str_eq, if◌then◌else◌, ◌≡◌, refl, sym, ap, ◌∙◌, subst, arith,
  eq_iff, Bool-cases, Option-cases, inl, inr,
}
use atomo.Prelude.Map.{Map, get, remove, get-insert, get-remove}
use atomo.Prelude.Map.Distinct.{IsDistinct, insert-IsDistinct, remove-IsDistinct}
use atomo.Projections.{BaseRow, Row, ProjectionTable, id_required, and_then, Result, ok, err}
use atomo.Projections.CurrentState.{
  Database, live_row, unless_deleted, set_all, upsert, initialize_and_sync, refreshed, refresh_in,
  refresh, created, add_columns, synced, can_sync, committed,
}
use atomo.Projections.Rows.{shown, wanted, InStep, value-set_all}
use atomo.Projections.Agreement.{
  IsCurrent, can_sync-rows, Settles, initialize_and_sync-Settles, projected, current_cell,
}
use atomo.Projections.Histories.{
  World, Step, writes, handles, loses, syncs, handle_event, write, remove_at, handled, dropped,
  step, run, start, followed,
}

-- The ids whose notification is on its way, or was lost.
abbrev pub excepted : World → String → Bool
excepted w id = contains w.pending id || contains w.lost id

abbrev Follows : List String → World → Type 0
Follows cs w = IsDistinct w.database.source × IsCurrent cs (excepted w) w.database

contains-remove_at :
    (i : ℕ) (xs : List String) (x id : String)
    → get_elem? xs i ≡ some x
    → contains xs id ≡ (str_eq x id || contains (remove_at i xs) id)
contains-remove_at i [] x id h = ground (arith, h)
contains-remove_at zero (y ∷ ys) x id h = ground (arith, h)
contains-remove_at (suc i) (y ∷ ys) x id h = ground (arith, contains-remove_at i ys x id h)

write-IsDistinct :
    (id : String) (row : Option BaseRow) (source : Map String BaseRow)
    → IsDistinct source
    → IsDistinct (write id row source)
write-IsDistinct id none source h = remove-IsDistinct id source h
write-IsDistinct id (some b) source h = insert-IsDistinct id b source h

get-write :
    (id j : String) (row : Option BaseRow) (source : Map String BaseRow)
    → str_eq id j ≡ false
    → get j (write id row source) ≡ get j source
get-write id j none source other = ground (arith, other, get-remove id j source)
get-write id j (some b) source other = ground (arith, other, get-insert id j b source)

InStep-refreshed :
    (cs : List String) (source : Map String BaseRow) (t : ProjectionTable) (id : String)
    → InStep cs source (refreshed cs id (live_row id source) t).rows id
unfolding InStep upsert
InStep-refreshed cs source t id c has = elim (Option-cases (live_row id source)) [
  | inl absent ↦ ground (arith, absent, eq_iff id id, get-remove id id t.rows)
  | inr (b, there) ↦
      let r = unwrap_or [] (get id t.rows) in
      ground (
        arith,
        there,
        eq_iff id id,
        get-insert id id (set_all cs id b r) t.rows,
        value-set_all cs id b r c has,
      )
]

get-refreshed :
    (cs : List String) (o : Option BaseRow) (t : ProjectionTable) (id j : String)
    → str_eq id j ≡ false
    → get j (refreshed cs id o t).rows ≡ get j t.rows
unfolding upsert
get-refreshed cs none t id j other = ground (arith, other, get-remove id j t.rows)
get-refreshed cs (some b) t id j other =
    ground (arith, other, get-insert id j (set_all cs id b (unwrap_or [] (get id t.rows))) t.rows)

can_sync-refreshed :
    (cs columns : List String) (o : Option BaseRow) (t : ProjectionTable) (id : String)
    → can_sync cs columns (refreshed cs id o t) ≡ can_sync cs columns t
can_sync-refreshed cs columns none t id = can_sync-rows cs columns t (remove id t.rows)
can_sync-refreshed cs columns (some b) t id = can_sync-rows cs columns t (upsert cs id b t.rows)

-- The agreement at an id rests on the two rows there.
InStep-moved :
    (cs : List String) (source source' : Map String BaseRow) (rows rows' : Map String Row)
    (id : String)
    → get id rows' ≡ get id rows
    → get id source' ≡ get id source
    → InStep cs source rows id
    → InStep cs source' rows' id
unfolding InStep
InStep-moved cs source source' rows rows' id same_row same_base h c has =
    ap (shown c id) same_row
    ∙ h c has
    ∙ sym (ap (λ (o : Option BaseRow). wanted c id (unless_deleted o)) same_base)

refresh_lem :
    (cs : List String) (id : String) (d : Database) (t : ProjectionTable)
    → d.projection ≡ some t
    → can_sync cs d.source_columns t ≡ true
    → (refresh cs id d).1
      ≡ record d { projection = some (refreshed cs id (live_row id d.source) t) }
unfolding refresh
refresh_lem cs id d t there can =
    ap (λ (o : Option ProjectionTable). (refresh_in cs id o d).1) there ∙ ground (arith, can)

-- Handling a notification brings its id up to date, and leaves the others as they are.
handled-Follows :
    (cs : List String) (i : ℕ) (o : Option String) (w : World)
    → get_elem? w.pending i ≡ o
    → Follows cs w
    → Follows cs (handled cs i o w)
unfolding handle_event refresh
handled-Follows cs i none w at h = h
handled-Follows cs i (some id) w at (unique, current) =
    let d = w.database in
    let t = current.0 in
    let t' = refreshed cs id (live_row id d.source) t in
    subst
      (λ (x : Database). Follows cs (record w { database = x; pending = remove_at i w.pending }))
      (sym (refresh_lem cs id d t current.1 current.2))
      (
        unique,
        (
          t',
          refl,
          can_sync-refreshed cs d.source_columns (live_row id d.source) t id ∙ current.2,
          λ j free. elim (Bool-cases (str_eq id j)) [
            | inl same ↦
                subst (λ (k : String). InStep cs d.source t'.rows k) ((eq_iff id j).0 same)
                  (InStep-refreshed cs d.source t id)
            | inr other ↦
                InStep-moved cs d.source d.source t.rows t'.rows j
                  (get-refreshed cs (live_row id d.source) t id j other) refl
                  (current.3 j
                    (ground (arith, free, other, contains-remove_at i w.pending id j at)))
          ],
        ),
      )

dropped-Follows :
    (cs : List String) (i : ℕ) (o : Option String) (w : World)
    → get_elem? w.pending i ≡ o
    → Follows cs w
    → Follows cs (dropped i o w)
dropped-Follows cs i none w at h = h
dropped-Follows cs i (some id) w at (unique, current) = (
  unique,
  (
    current.0,
    current.1,
    current.2,
    λ j free. current.3 j (ground (arith, free, contains-remove_at i w.pending id j at)),
  ),
)

synced-Follows :
    (cs : List String) (w : World) (o : Result ℕ × Database)
    → Settles cs w.database o
    → o.1.source ≡ w.database.source
    → Follows cs w
    → Follows cs (record w { database = o.1 })
synced-Follows cs w (ok n, d) settles same (unique, current) =
    let now = settles.0 n refl in
    (subst IsDistinct (sym same) unique, (now.0, now.1, now.2, λ j free. now.3 j refl))
synced-Follows cs w (err e, d) settles same (unique, current) =
    subst (λ (x : Database). Follows cs (record w { database = x })) (sym (settles.1 e refl))
      (unique, current)

kept_if :
    (b : Bool) (o : Result (ℕ × ProjectionTable)) (d : Database)
    → (if not b then (err id_required, d) else committed o d).1.source ≡ d.source
kept_if true (ok r) d = refl
kept_if true (err e) d = refl
kept_if false o d = refl

-- A synchronisation does not write the model's table.
source_kept : (cs : List String) (d : Database) → (initialize_and_sync cs d).1.source ≡ d.source
unfolding initialize_and_sync
source_kept cs d =
    kept_if (contains cs "id")
      (and_then (and_then (created cs d.projection) (λ t. add_columns cs t))
        (λ t. synced cs d.source_columns d.source t))
      d

step-Follows : (cs : List String) (s : Step) (w : World) → Follows cs w → Follows cs (step cs s w)
unfolding step
step-Follows cs (writes id row) w (unique, current) = (
  write-IsDistinct id row w.database.source unique,
  (
    current.0,
    current.1,
    current.2,
    λ j free.
        InStep-moved cs w.database.source (write id row w.database.source) current.0.rows
          current.0.rows j refl (get-write id j row w.database.source (ground (arith, free)))
          (current.3 j (ground (arith, free))),
  ),
)
step-Follows cs (handles i) w h = handled-Follows cs i (get_elem? w.pending i) w refl h
step-Follows cs (loses i) w h = dropped-Follows cs i (get_elem? w.pending i) w refl h
step-Follows cs syncs w h =
    synced-Follows cs w (initialize_and_sync cs w.database)
      (initialize_and_sync-Settles cs w.database h.0) (source_kept cs w.database) h

run-Follows :
    (cs : List String) (steps : List Step) (w : World) → Follows cs w → Follows cs (run cs steps w)
unfolding run
run-Follows cs [] w h = h
run-Follows cs (s ∷ rest) w h = run-Follows cs rest (step cs s w) (step-Follows cs s w h)

-- A projection that was synchronised follows its model through any writes, handled and lost
-- notifications, and further synchronisations, as long as the ids of the model are unique: at each id
-- whose notification is neither on its way nor lost, it has the model's row, if that is not deleted.
pub projection_follows :
    (cs : List String) (d : Database) (n : ℕ) (steps : List Step) (id c : String)
    → IsDistinct d.source
    → (initialize_and_sync cs d).0 ≡ ok n
    → contains cs c ≡ true
    → contains (followed cs steps d).pending id ≡ false
    → contains (followed cs steps d).lost id ≡ false
    → projected c id (followed cs steps d).database
      ≡ wanted c id (live_row id (followed cs steps d).database.source)
projection_follows cs d n steps id c unique done has handled kept =
    let w = followed cs steps d in
    let now = (initialize_and_sync-Settles cs d unique).0 n done in
    let h = run-Follows cs steps (start (initialize_and_sync cs d).1) (
      subst IsDistinct (sym (source_kept cs d)) unique,
      (now.0, now.1, now.2, λ j _. now.3 j refl),
    ) in
    current_cell cs (excepted w) w.database id c h.1 (ground (arith, handled, kept)) has

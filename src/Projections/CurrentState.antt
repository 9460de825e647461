-- ===== src/Projections/CurrentState.antt =====
-- The projections that follow current state (crates/atomo_projectors/src/current_state.rs). A method is
-- one transaction: where it fails, the database is as before.
use atomo.Prelude.{
  string_key, ℕ, ◌+◌, String, Bool, true, false, ◌&&◌, not, Option, none, some, unwrap_or, List, [],
  ◌∷◌, contains, filter, str_eq, if◌then◌else◌,
}
use atomo.Prelude.Map.{Map, get, insert, remove}
use atomo.Projections.{
  BaseRow, Row, ProjectionTable, id_required, column_conflict, no_identity, refused, Result, ok,
  err, and_then, distinct, can_insert, value,
}

pub record Database : Type 0 where
  pub source_columns : List String
  pub source : Map String BaseRow
  pub projection : Option ProjectionTable

-- `COALESCE(b.c::text, '')`
abbrev pub cell : String → String → BaseRow → String
cell c id b = if str_eq c "id" then id else unwrap_or "" (get c b.cells)

-- `WHERE b.deleted_at IS NULL`
abbrev pub unless_deleted : Option BaseRow → Option BaseRow
unless_deleted none = none
unless_deleted (some b) = if b.is_deleted then none else some b

abbrev pub live_row : String → Map String BaseRow → Option BaseRow
live_row id source = unless_deleted (get id source)

abbrev pub live : Map String BaseRow → Map String BaseRow
live source = filter (λ x. not x.1.is_deleted) source

-- `SET c = EXCLUDED.c, …`, of all columns but `id`.
unfoldable pub set_all : List String → String → BaseRow → Row → Row
set_all [] id b r = r
set_all (c ∷ cs) id b r =
    let rest = set_all cs id b r in if str_eq c "id" then rest else insert c (cell c id b) rest

-- `INSERT … ON CONFLICT (id) DO UPDATE SET …`, of one row.
unfoldable pub upsert : List String → String → BaseRow → Map String Row → Map String Row
upsert cs id b rows = insert id (set_all cs id b (unwrap_or [] (get id rows))) rows

abbrev pub is_cell : String → Option String → Bool
is_cell v none = false
is_cell v (some u) = str_eq u v

-- `ROW(p.c, …) IS DISTINCT FROM ROW(EXCLUDED.c, …)`, negated.
abbrev pub same_cells : List String → String → BaseRow → Row → Bool
same_cells [] id b r = true
same_cells (c ∷ cs) id b r = is_cell (cell c id b) (value c id r) && same_cells cs id b r

abbrev pub is_unchanged : List String → String → BaseRow → Option Row → Bool
is_unchanged cs id b none = false
is_unchanged cs id b (some r) = same_cells cs id b r

-- How many rows are inserted or changed, and the rows.
unfoldable pub sync_row : List String → String → BaseRow → Map String Row → ℕ × Map String Row
unfolding upsert
sync_row cs id b rows =
    if is_unchanged cs id b (get id rows) then (0, rows) else (1, upsert cs id b rows)

unfoldable pub sync_rows : List String → Map String BaseRow → Map String Row → ℕ × Map String Row
unfolding sync_row
sync_rows cs [] rows = (0, rows)
sync_rows cs ((id, b) ∷ rest) rows =
    let here = sync_row cs id b rows in
    let others = sync_rows cs rest here.1 in (here.0 + others.0, others.1)

-- `DELETE … WHERE NOT EXISTS …`
abbrev pub is_live : String → Map String BaseRow → Bool
is_live id source = elim (live_row id source) [ none ↦ false | some b ↦ true ]

unfoldable pub prune : Map String BaseRow → Map String Row → Map String Row
prune source rows = filter (λ x. is_live x.0 source) rows

abbrev pub text_columns : List String → Map String String
text_columns [] = []
text_columns (c ∷ cs) = (c, "text") ∷ text_columns cs

-- `CREATE TABLE IF NOT EXISTS`
abbrev pub created : List String → Option ProjectionTable → Result ProjectionTable
created cs (some t) = ok t
created cs none =
    if distinct cs
    then ok (record { columns = text_columns cs; has_key = true; rows = [] })
    else err refused

abbrev pub add_column : String → Option String → ProjectionTable → Result ProjectionTable
add_column c (some kind) t = if str_eq kind "text" then ok t else err column_conflict
add_column c none t =
    if str_eq c "id" then err no_identity else ok (record t { columns = insert c "text" t.columns })

unfoldable pub add_columns : List String → ProjectionTable → Result ProjectionTable
add_columns [] t = ok t
add_columns (c ∷ cs) t = and_then (add_column c (get c t.columns) t) (λ t'. add_columns cs t')

abbrev pub all_among : List String → List String → Bool
all_among [] columns = true
all_among (c ∷ cs) columns = contains columns c && all_among cs columns

-- What the database asks of `INSERT … SELECT … FROM b WHERE b.deleted_at IS NULL`.
unfoldable pub can_sync : List String → List String → ProjectionTable → Bool
unfolding can_insert
can_sync cs columns t = can_insert cs t && (contains columns "deleted_at" && all_among cs columns)

-- The two statements that bring the rows up to date.
unfoldable pub synced :
    List String → List String → Map String BaseRow → ProjectionTable → Result (ℕ × ProjectionTable)
unfolding can_sync sync_rows prune
synced cs columns source t =
    let r = sync_rows cs (live source) t.rows in
    if can_sync cs columns t then ok (r.0, record t { rows = prune source r.1 }) else err refused

abbrev pub committed : Result (ℕ × ProjectionTable) → Database → Result ℕ × Database
committed (ok (n, t)) d = (ok n, record d { projection = some t })
committed (err e) d = (err e, d)

unfoldable pub initialize_and_sync : List String → Database → Result ℕ × Database
unfolding add_columns synced
initialize_and_sync cs d =
    if not (contains cs "id")
    then (err id_required, d)
    else committed
        (and_then (and_then (created cs d.projection) (λ t. add_columns cs t))
          (λ t. synced cs d.source_columns d.source t))
        d

abbrev pub refreshed : List String → String → Option BaseRow → ProjectionTable → ProjectionTable
refreshed cs id none t = record t { rows = remove id t.rows }
refreshed cs id (some b) t = record t { rows = upsert cs id b t.rows }

abbrev pub refresh_in :
    List String → String → Option ProjectionTable → Database → Result (Unit {0}) × Database
refresh_in cs id none d = (err refused, d)
refresh_in cs id (some t) d =
    if can_sync cs d.source_columns t
    then (ok tt, record d { projection = some (refreshed cs id (live_row id d.source) t) })
    else (err refused, d)

unfoldable pub refresh : List String → String → Database → Result (Unit {0}) × Database
unfolding can_sync upsert
refresh cs id d = refresh_in cs id d.projection d

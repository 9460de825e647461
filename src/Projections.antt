-- ===== src/Projections.antt =====
-- Read tables that follow the models (crates/atomo_projectors): what a table of a projection and the
-- table of its model hold, and the statements on them. A cell that is NULL is absent from its row; the
-- cell of `id` is the key of the row. A name is quoted in each statement, and stands for itself here.
pub mod CurrentState
pub mod Rows
pub mod Agreement
pub mod Histories
pub mod Replay
use atomo.Prelude.{
  string_key, String, Bool, true, false, ◌&&◌, not, Option, none, some, is_some, unwrap_or, List,
  [], ◌∷◌, contains, str_eq, if◌then◌else◌,
}
use atomo.Prelude.Map.{Map, get, insert}

-- A row of the model's table, with its cells as texts.
pub record BaseRow : Type 0 where
  pub is_deleted : Bool
  pub cells : Map String String

abbrev pub Row : Type 0
Row = Map String String

-- The types of the columns, whether `id` is the primary key, and the rows.
pub record ProjectionTable : Type 0 where
  pub columns : Map String String
  pub has_key : Bool
  pub rows : Map String Row

pub data ProjectionError : Type 0 where
  id_required column_conflict no_identity history_unavailable rebuild_unsupported : ProjectionError
  refused : ProjectionError

pub data Result {ℓ} (A : Type ℓ) : Type ℓ where
  ok : A → Result A
  err : ProjectionError → Result A

abbrev pub and_then {ℓ} : {A B : Type ℓ} → Result A → (A → Result B) → Result B
and_then (ok a) f = f a
and_then (err e) f = err e

abbrev pub distinct : List String → Bool
distinct [] = true
distinct (c ∷ cs) = not (contains cs c) && distinct cs

abbrev pub all_known : List String → ProjectionTable → Bool
all_known [] t = true
all_known (c ∷ cs) t = is_some (get c t.columns) && all_known cs t

-- What the database asks of a statement that inserts these columns, with `ON CONFLICT (id)`.
unfoldable pub can_insert : List String → ProjectionTable → Bool
can_insert cs t = contains cs "id" && (distinct cs && (t.has_key && all_known cs t))

-- The cell of a row of the projection.
abbrev pub value : String → String → Row → Option String
value c id r = if str_eq c "id" then some id else get c r

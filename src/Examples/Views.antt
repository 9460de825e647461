-- ===== src/Examples/Views.antt =====
-- A model and its projection (crates/atomo_projectors/src).
use atomo.Prelude.{
  string_key, ℕ, String, true, false, none, some, is_some, List, [], ◌∷◌, ◌≡◌, refl, filter, str_eq,
  arith, eq_iff,
}
use atomo.Prelude.Map
use atomo.Prelude.Map.{Map}
use atomo.Prelude.Map.Distinct.{IsDistinct}
use atomo.Prelude.Sorting.{sort_by, insert_by}
use atomo.Projections.{BaseRow, ProjectionTable, can_insert}
use atomo.Projections.CurrentState.{
  Database, live_row, initialize_and_sync, add_columns, synced, sync_rows, sync_row, set_all,
  upsert, prune, refresh, can_sync,
}
use atomo.Projections.Rows.{wanted}
use atomo.Projections.Histories.{Step, writes, handles, loses, run, step, followed, handle_event}
use atomo.Projections.Agreement.{projected}
use atomo.Projections.Agreement.Following.{projection_follows}
use atomo.Projections.Replay.{
  null, text, Coverage, LogEntry, entry_le, rebuild_in, replay, handle_event_connection, set_fields,
  require_complete_history, rebuild_all, preflight, rebuild_each,
}
use atomo.Projections.Replay.Presence.{present, rebuild_in_lem}
use atomo.Projections.Replay.Tables.{TableProjection, Tables, new, projection_of}
use atomo.Projections.Replay.Rebuilding.{IsComplete, HaveOwnTables, history, rebuild_all_lem}

abbrev columns : List String
columns = "id" ∷ "name" ∷ []

abbrev base_row : String → BaseRow
base_row name = record { is_deleted = false; cells = ("name", name) ∷ [] }

-- One live row, one that is deleted, and no projection yet.
abbrev database : Database
database = record {
  source_columns = "id" ∷ "name" ∷ "deleted_at" ∷ [];
  source = ("a", base_row "x") ∷ ("b", record (base_row "y") { is_deleted = true }) ∷ [];
  projection = none;
}

database-IsDistinct : IsDistinct database.source
unfolding IsDistinct Map.get
database-IsDistinct = (refl, (refl, tt))

-- A write whose notification is handled, and one whose notification is lost.
abbrev steps : List Step
steps = writes "b" (some (base_row "z")) ∷ writes "a" none ∷ loses 0 ∷ handles 0 ∷ []

projection_follows_example :
    projected "name" "b" (followed columns steps database).database
    ≡ wanted "name" "b" (live_row "b" (followed columns steps database).database.source)
unfolding initialize_and_sync add_columns synced sync_rows sync_row set_all upsert prune can_sync
    can_insert Map.get Map.insert Map.remove run step refresh handle_event
projection_follows_example =
    projection_follows columns database 1 steps "b" "name" database-IsDistinct refl refl refl refl

abbrev table : ProjectionTable
table = record { columns = ("id", "text") ∷ ("name", "text") ∷ []; has_key = true; rows = [] }

abbrev entry : String → String → ℕ → LogEntry
entry event_type id timestamp = record {
  model_name = "Post";
  event_type = event_type;
  fields = ("id", text id) ∷ ("name", null) ∷ [];
  timestamp = timestamp;
  created_at = 0;
}

-- The deletion of `a` comes last, though it is first in the log.
abbrev log : List LogEntry
log = entry "Deleted" "a" 3 ∷ entry "Created" "a" 1 ∷ entry "Created" "b" 2 ∷ []

abbrev after : ProjectionTable
after = record table { rows = ("b", ("name", "") ∷ []) ∷ [] }

rebuild_in_lem_example :
    is_some (Map.get "b" after.rows)
    ≡ present "b" (sort_by entry_le (filter (λ e. str_eq e.model_name "Post") log)) false
unfolding rebuild_in replay handle_event_connection set_fields require_complete_history can_insert
    sort_by insert_by Map.get Map.insert Map.remove
rebuild_in_lem_example = rebuild_in_lem columns "Post" none log table after "b" refl refl

-- Two projections, of a model whose history is kept in full and of one that is not known of, and a table
-- of theirs that holds a stale row.
abbrev posts : TableProjection
posts = new "Post" "posts" columns

abbrev comments : TableProjection
comments = new "Comment" "comments" columns

abbrev coverage : Coverage
coverage = some (("Post", ("full", true)) ∷ [])

abbrev stale : ProjectionTable
stale = record table { rows = ("a", []) ∷ [] }

abbrev tables : Tables
tables = ("comments", stale) ∷ ("posts", stale) ∷ []

abbrev rebuilt_tables : Tables
rebuilt_tables = ("comments", table) ∷ ("posts", after) ∷ []

apart : HaveOwnTables (comments ∷ posts ∷ [])
apart = (((λ e. ground (arith, e, eq_iff "comments" "posts")), tt), (tt, tt))

rebuild_all_lem_example :
    IsComplete "Post" coverage
    × ((t : ProjectionTable) × (Map.get "posts" rebuilt_tables ≡ some t)
        × (is_some (Map.get "b" t.rows) ≡ present "b" (history "Post" log) false))
unfolding rebuild_all preflight rebuild_each projection_of rebuild_in replay handle_event_connection
    set_fields require_complete_history can_insert sort_by insert_by Map.get Map.insert Map.remove
rebuild_all_lem_example =
    rebuild_all_lem coverage log (comments ∷ posts ∷ []) tables rebuilt_tables 1 posts "b" apart
      refl refl refl

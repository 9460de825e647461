-- ===== src/Projections/Replay/Tables.antt =====
-- `TableProjection` as one of the manager's projections
-- (crates/atomo_projectors/src/projection.rs): each has a table of its own in the database.
use Prim.Native.String.{◌++◌ as str_append}
use atomo.Prelude.{string_key, String, true, false, Option, none, some, List, []}
use atomo.Prelude.Map.{Map, get, insert}
use atomo.Projections.{ProjectionTable, refused, Result, ok, err, and_then}
use atomo.Projections.Replay.{
  Fields, LogEntry, Coverage, handle_event_connection, require_complete_history, rebuild_in,
  Projection,
}

pub record TableProjection : Type 0 where
  pub name : String
  pub source_model : String
  pub table_name : String
  pub columns : List String

abbrev pub new : String → String → List String → TableProjection
new source_model table_name columns = record {
  name = str_append table_name "_projection";
  source_model = source_model;
  table_name = table_name;
  columns = columns;
}

abbrev pub Tables : Type 0
Tables = Map String ProjectionTable

-- A table that is not there takes no statement.
abbrev pub no_table : ProjectionTable
no_table = record { columns = []; has_key = false; rows = [] }

abbrev pub handle_in :
    TableProjection → String → Fields → Option ProjectionTable → Tables → Result Tables
handle_in p event_type fields none ts =
    and_then (handle_event_connection p.columns event_type fields no_table) (λ t. ok ts)
handle_in p event_type fields (some t) ts =
    and_then (handle_event_connection p.columns event_type fields t)
      (λ t'. ok (insert p.table_name t' ts))

-- A statement that fails changes nothing.
abbrev pub settled : Result Tables → Tables → Result (Unit {0}) × Tables
settled (ok ts') ts = (ok tt, ts')
settled (err e) ts = (err e, ts)

abbrev pub rebuild_at :
    TableProjection → Coverage → List LogEntry → Option ProjectionTable → Tables → Result Tables
rebuild_at p coverage log none ts =
    and_then (require_complete_history p.source_model coverage) (λ u. err refused)
rebuild_at p coverage log (some t) ts =
    and_then (rebuild_in p.columns p.source_model coverage log t)
      (λ t'. ok (insert p.table_name t' ts))

unfoldable pub projection_of : Coverage → List LogEntry → TableProjection → Projection Tables
unfolding handle_event_connection require_complete_history rebuild_in get insert
projection_of coverage log p = record {
  source_model = p.source_model;
  supports_transactional_rebuild = true;
  handle_event =
      λ event_type fields ts. settled (handle_in p event_type fields (get p.table_name ts) ts) ts;
  rebuild_in = λ ts. rebuild_at p coverage log (get p.table_name ts) ts;
}

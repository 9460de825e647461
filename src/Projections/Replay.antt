-- ===== src/Projections/Replay.antt =====
-- Projections that replay events, and the manager of projections
-- (crates/atomo_projectors/src/projection.rs, projector_manager.rs). A table has `id` as its key, as
-- `initialize_and_sync` makes it. Values are texts, or other JSON by its text.
pub mod Tables
pub mod Presence
pub mod Rebuilding
use atomo.Prelude.{
  string_key, ℕ, String, Bool, true, false, ◌&&◌, ◌||◌, not, Option, none, some, is_some, unwrap_or,
  is_some_and, List, [], ◌∷◌, contains, filter, str_eq, leb, ltb, nat_eq, if◌then◌else◌,
}
use atomo.Prelude.Map.{Map, get, insert, remove}
use atomo.Prelude.Sorting.{sort_by}
use atomo.Projections.{
  Row, ProjectionTable, ProjectionError, history_unavailable, rebuild_unsupported, refused, Result,
  ok, err, and_then, distinct, all_known, can_insert,
}

pub data Value : Type 0 where
  null : Value
  text other : String → Value

abbrev pub value_to_text : Value → String
value_to_text null = ""
value_to_text (text s) = s
value_to_text (other s) = s

abbrev pub Fields : Type 0
Fields = Map String Value

abbrev pub text_of : Option Value → Option String
text_of none = none
text_of (some null) = none
text_of (some (text s)) = some s
text_of (some (other s)) = none

-- The columns that an event has.
abbrev pub given : List String → Fields → List String
given cs fields = filter (λ c. is_some (get c fields)) cs

abbrev pub bound : String → Fields → String
bound c fields = value_to_text (unwrap_or null (get c fields))

unfoldable pub set_fields : List String → Fields → Row → Row
set_fields [] fields r = r
set_fields (c ∷ cs) fields r =
    let rest = set_fields cs fields r in
    if str_eq c "id" then rest else insert c (bound c fields) rest

-- `INSERT … ON CONFLICT DO NOTHING`
abbrev pub insert_new : List String → Fields → Option Row → ProjectionTable → ProjectionTable
insert_new cs fields (some r) t = t
insert_new cs fields none t = record t {
  rows = insert (bound "id" fields) (set_fields cs fields []) t.rows;
}

abbrev pub on_created : List String → Fields → ProjectionTable → Result ProjectionTable
on_created [] fields t = ok t
on_created (c ∷ cs) fields t =
    if can_insert (c ∷ cs) t
    then ok (insert_new (c ∷ cs) fields (get (bound "id" fields) t.rows) t)
    else err refused

-- `UPDATE … SET … WHERE "id" = …`
abbrev pub update_found :
    List String → String → Fields → Option Row → ProjectionTable → ProjectionTable
update_found cs id fields none t = t
update_found cs id fields (some r) t = record t { rows = insert id (set_fields cs fields r) t.rows }

abbrev pub on_updated :
    List String → Option String → Fields → ProjectionTable → Result ProjectionTable
on_updated cs none fields t = ok t
on_updated [] (some id) fields t = ok t
on_updated (c ∷ cs) (some id) fields t =
    if distinct (c ∷ cs) && (t.has_key && all_known (c ∷ cs) t)
    then ok (update_found (c ∷ cs) id fields (get id t.rows) t)
    else err refused

abbrev pub on_deleted : Option String → ProjectionTable → Result ProjectionTable
on_deleted none t = ok t
on_deleted (some id) t =
    if t.has_key then ok (record t { rows = remove id t.rows }) else err refused

abbrev pub creates : String → Bool
creates event_type = str_eq event_type "Created" || str_eq event_type "Restored"

abbrev pub deletes : String → Bool
deletes event_type = str_eq event_type "Deleted" || str_eq event_type "HardDeleted"

unfoldable pub handle_event_connection :
    List String → String → Fields → ProjectionTable → Result ProjectionTable
unfolding can_insert set_fields
handle_event_connection cs event_type fields t =
    if creates event_type
    then on_created (given cs fields) fields t
    else if str_eq event_type "Updated"
    then on_updated (filter (λ c. not (str_eq c "id")) (given cs fields))
        (text_of (get "id" fields)) fields t
    else if deletes event_type
    then on_deleted (text_of (get "id" fields)) t
    else ok t

-- A row of `event_log`; data that is no object counts as without fields.
pub record LogEntry : Type 0 where
  pub model_name : String
  pub event_type : String
  pub fields : Fields
  pub timestamp : ℕ
  pub created_at : ℕ

abbrev pub entry_le : LogEntry → LogEntry → Bool
entry_le a b =
    ltb a.timestamp b.timestamp || nat_eq a.timestamp b.timestamp && leb a.created_at b.created_at

unfoldable pub replay : List String → List LogEntry → ProjectionTable → Result ProjectionTable
unfolding handle_event_connection
replay cs [] t = ok t
replay cs (e ∷ es) t =
    and_then (handle_event_connection cs e.event_type e.fields t) (λ t'. replay cs es t')

-- The table of coverage, if there is one: the mode of each model, and whether its history is complete.
abbrev pub Coverage : Type 0
Coverage = Option (Map String (String × Bool))

abbrev pub is_incomplete : String × Bool → Bool
is_incomplete (mode, complete) = not (str_eq mode "full") || not complete

abbrev pub is_unavailable : String → Coverage → Bool
is_unavailable model none = false
is_unavailable model (some coverage) = is_some_and is_incomplete (get model coverage)

unfoldable pub require_complete_history : String → Coverage → Result (Unit {0})
require_complete_history model coverage =
    if is_unavailable model coverage then err history_unavailable else ok tt

unfoldable pub rebuild_in :
    List String → String → Coverage → List LogEntry → ProjectionTable → Result ProjectionTable
unfolding require_complete_history replay
rebuild_in cs model coverage log t = and_then (require_complete_history model coverage) (λ u.
    replay cs (sort_by entry_le (filter (λ e. str_eq e.model_name model) log))
      (record t { rows = [] }))

-- A projection of the manager, by what it does to the database `S`.
pub record Projection (S : Type 0) : Type 0 where
  pub source_model : String
  pub supports_transactional_rebuild : Bool
  pub handle_event : String → Fields → S → Result (Unit {0}) × S
  pub rebuild_in : S → Result S

module _ {S : Type 0} where
  -- A failure is logged only.
  unfoldable pub process_event : List (Projection S) → String → String → Fields → S → S
  process_event [] event_type model fields s = s
  process_event (p ∷ ps) event_type model fields s =
      let s' = if str_eq p.source_model model then (p.handle_event event_type fields s).1 else s in
      process_event ps event_type model fields s'

  unfoldable pub preflight : Coverage → List (Projection S) → Result (Unit {0})
  unfolding require_complete_history
  preflight coverage [] = ok tt
  preflight coverage (p ∷ ps) =
      let rest = preflight coverage ps in
      if not p.supports_transactional_rebuild
      then err rebuild_unsupported
      else and_then (require_complete_history p.source_model coverage) (λ u. rest)

  unfoldable pub rebuild_each : List (Projection S) → S → Result S
  rebuild_each [] s = ok s
  rebuild_each (p ∷ ps) s = and_then (p.rebuild_in s) (λ s'. rebuild_each ps s')

  abbrev pub commit : Result S → S → Result (Unit {0}) × S
  commit (ok s') s = (ok tt, s')
  commit (err e) s = (err e, s)

  unfoldable pub rebuild_all : Coverage → List (Projection S) → S → Result (Unit {0}) × S
  unfolding preflight rebuild_each
  rebuild_all coverage ps s = commit (and_then (preflight coverage ps) (λ u. rebuild_each ps s)) s

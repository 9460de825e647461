-- ===== src/Examples/Streams.antt =====
-- Streams of events (crates/atomo_server/src/event_store/memory.rs).
use atomo.Prelude.{
  ℕ, ◌+◌, none, some, List, [], ◌∷◌, ◌++◌, ◌≡◌, refl, arith, drop, take, length, All, true, ◌-◌,
}
use atomo.Prelude.Int.{ℤ, pos}
use atomo.Prelude.Map.{get}
use atomo.Prelude.Sorting.{sort_by, IsOrderedBy}
use mathlib.Core.List.{Perm}
use atomo.Events.Snapshots.{Snapshot, InMemorySnapshotStore, kept, by_version, cleanup_snapshots}
use atomo.Events.Snapshots.Keeping.{cleanup_snapshots_lem}
use atomo.Events.Store.{
  EventMetadata, EventEnvelope, EventType, InMemoryEventStore, new, ok, err, concurrency_conflict,
  assign, current_version, append_numbered, append_events, take_max, read_stream,
  read_events_from_sequence,
}
use atomo.Events.Numbering.Validity.{IsValid, new-IsValid, append-IsValid}
use atomo.Events.Reading.{reads_after, append_events_lem, second_writer_refused}

abbrev pair_snapshot : Snapshot (ℕ × ℤ)
pair_snapshot = record { aggregate_id = λ p. p.0; version = λ p. p.1 }

abbrev saved : InMemorySnapshotStore (ℕ × ℤ)
saved = record { snapshots = (4, (4, pos 9) ∷ (4, pos 2) ∷ (4, pos 5) ∷ []) ∷ [] }

cleanup_snapshots_lem_example :
    let rest = kept 4 (cleanup_snapshots pair_snapshot 4 2 saved) in
    let gone =
      take (length (kept 4 saved) - 2) (sort_by (by_version pair_snapshot) (kept 4 saved)) in
    (length rest ≡ 2)
    × Perm (gone ++ rest) (kept 4 saved)
    × IsOrderedBy (by_version pair_snapshot) rest
    × All (λ x. All (λ y. by_version pair_snapshot x y ≡ true) rest) gone
unfolding kept get
cleanup_snapshots_lem_example = cleanup_snapshots_lem pair_snapshot 4 2 saved (omega arith)

abbrev nobody : EventMetadata
nobody = record {
  user_id = none;
  ip_address = none;
  user_agent = none;
  correlation_id = none;
  causation_id = none;
  context = [];
}

abbrev event : ℕ → EventEnvelope
event n = record {
  event_id = n;
  stream_id = 7;
  stream_version = 0;
  global_sequence = 0;
  event_type = EventType.created;
  metadata = nobody;
  payload = "{}";
  recorded_at = pos n;
}

abbrev events : List EventEnvelope
events = event 1 ∷ event 2 ∷ event 3 ∷ []

abbrev draw : ℕ → ℕ
draw i = i + 1000

abbrev appended : InMemoryEventStore
appended = append_numbered draw 7 events new

appended-IsValid : IsValid appended
appended-IsValid = append-IsValid draw 7 events new new-IsValid

reads_after_example :
    (read_stream 7 (some (pos 2)) (some 1) appended
      ≡ take_max (some 1) (drop 1 (read_stream 7 none none appended)))
    × (read_events_from_sequence (pos 2) (some 1) appended
        ≡ take_max (some 1) (drop 1 appended.events))
reads_after_example = reads_after 7 1 (some 1) appended appended-IsValid

append_events_lem_example :
    let s = append_numbered draw 7 events new in
    (append_events draw 7 (some (pos 0)) events new ≡ ok s)
    × (read_stream 7 none none s ≡ read_stream 7 none none new ++ assign 1 0 events)
    × (current_version 7 s ≡ current_version 7 new + 3)
    × IsValid s
unfolding get new
append_events_lem_example = append_events_lem draw 7 (some (pos 0)) events new 7 new-IsValid refl

first_append : append_events draw 7 (some (pos (current_version 7 new))) events new ≡ ok appended
unfolding append_events get new
first_append = refl

second_writer_refused_example :
    append_events draw 7 (some (pos (current_version 7 new))) events appended
    ≡ err (concurrency_conflict (pos (current_version 7 new)) (current_version 7 new + 3))
second_writer_refused_example =
    second_writer_refused draw draw 7 events events new appended (omega arith) first_append

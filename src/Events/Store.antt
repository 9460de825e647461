-- ===== src/Events/Store.antt =====
-- The event store that keeps its events in memory (crates/atomo_server/src/event_store/memory.rs), and
-- the envelopes that it stores (crates/atomo_core/src/events). A lock is held through each call, so a
-- call is one function on the state. ULIDs and UUIDs are their 128-bit numbers.
use atomo.Prelude.{
  unwrap_or, ℕ, suc, ◌+◌, String, Bool, true, false, not, ◌&&◌, Option, none, some, List, [], ◌∷◌,
  ◌++◌, length, get_elem?, filter, take, if◌then◌else◌, nat_eq, str_eq, is_some, nat_key,
}
use atomo.Prelude.Int.{ℤ, pos, negsuc, leb_ℤ}
use atomo.Prelude.Map.{Map, get, insert, remove}

abbrev pub EntityId : Type 0
EntityId = ℕ

abbrev pub StreamId : Type 0
StreamId = ℕ

abbrev pub Timestamp : Type 0
Timestamp = ℤ

pub data EventType : Type 0 where
  created updated deleted restored hard_deleted state_changed integration : EventType
  custom : String → EventType

-- `PartialEq`, derived.
abbrev pub same_type : EventType → EventType → Bool
same_type created created = true
same_type updated updated = true
same_type deleted deleted = true
same_type restored restored = true
same_type hard_deleted hard_deleted = true
same_type state_changed state_changed = true
same_type integration integration = true
same_type (custom a) (custom b) = str_eq a b
same_type _ _ = false

pub record EventMetadata : Type 0 where
  pub user_id : Option EntityId
  pub ip_address : Option String
  pub user_agent : Option String
  pub correlation_id : Option String
  pub causation_id : Option String
  pub context : Map String String

-- The payload and the values of the context are JSON texts.
pub record EventEnvelope : Type 0 where
  pub event_id : EntityId
  pub stream_id : StreamId
  pub stream_version : ℕ
  pub global_sequence : ℕ
  pub event_type : EventType
  pub metadata : EventMetadata
  pub payload : String
  pub recorded_at : Timestamp

pub record InMemoryEventStore : Type 0 where
  pub events : List EventEnvelope
  pub stream_versions : Map StreamId ℕ
  pub stream_events : Map StreamId (List ℕ)
  pub aggregate_events : Map EntityId (List ℕ)
  pub global_sequence : ℕ

pub data AtomoError : Type 0 where
  concurrency_conflict : (expected : ℤ) (actual : ℕ) → AtomoError

pub data Result : Type 0 where
  ok : InMemoryEventStore → Result
  err : AtomoError → Result

unfoldable pub new : InMemoryEventStore
new = record {
  events = [];
  stream_versions = [];
  stream_events = [];
  aggregate_events = [];
  global_sequence = 0;
}

unfoldable pub event_count : InMemoryEventStore → ℕ
event_count s = length s.events

unfoldable pub clear : InMemoryEventStore → InMemoryEventStore
clear s = record s {
  events = [];
  stream_versions = [];
  stream_events = [];
  aggregate_events = [];
  global_sequence = 0;
}

-- The loop that numbers the events; the versions begin at the first argument, and the global sequence
-- goes on from the second.
unfoldable pub assign : ℕ → ℕ → List EventEnvelope → List EventEnvelope
assign v g [] = []
assign v g (e ∷ es) =
    record e { stream_version = v; global_sequence = suc g } ∷ assign (suc v) (suc g) es

-- `entry(k).or_default().push(i)`
abbrev pub push : ℕ → ℕ → Map ℕ (List ℕ) → Map ℕ (List ℕ)
push k i m = insert k (unwrap_or [] (get k m) ++ i ∷ []) m

-- The loop that indexes the events, from an index on; an event without a user is indexed under an id
-- that is drawn for its index.
unfoldable pub index_all :
    (ℕ → EntityId) → StreamId → ℕ → List EventEnvelope → InMemoryEventStore → InMemoryEventStore
index_all draw k i [] s = s
index_all draw k i (e ∷ es) s = index_all draw k (suc i) es (record s {
  stream_events = push k i s.stream_events;
  aggregate_events = push (unwrap_or (draw i) e.metadata.user_id) i s.aggregate_events;
})

abbrev pub current_version : StreamId → InMemoryEventStore → ℕ
current_version k s = unwrap_or 0 (get k s.stream_versions)

abbrev pub conflict : Option ℤ → ℕ → Bool
conflict none v = false
conflict (some (pos n)) v = not (nat_eq v n)
conflict (some (negsuc n)) v = true

-- What `append_events` does once the version is the expected one.
unfoldable pub append_numbered :
    (ℕ → EntityId) → StreamId → List EventEnvelope → InMemoryEventStore → InMemoryEventStore
unfolding assign index_all
append_numbered draw k events s =
    let numbered = assign (current_version k s + 1) s.global_sequence events in
    let indexed = index_all draw k (length s.events) numbered s in
    record indexed {
      stream_versions = insert k (current_version k s + length events) s.stream_versions;
      events = s.events ++ numbered;
      global_sequence = s.global_sequence + length events;
    }

unfoldable pub append_events :
    (ℕ → EntityId) → StreamId → Option ℤ → List EventEnvelope → InMemoryEventStore → Result
unfolding append_numbered
append_events draw k expected events s =
    if conflict expected (current_version k s)
    then err (concurrency_conflict (unwrap_or (pos 0) expected) (current_version k s))
    else ok (append_numbered draw k events s)

-- `filter_map(|&idx| events.get(idx))`
unfoldable pub look_up : List EventEnvelope → List ℕ → List EventEnvelope
look_up es [] = []
look_up es (i ∷ is) =
    let rest = look_up es is in elim (get_elem? es i) [ none ↦ rest | some e ↦ e ∷ rest ]

-- `take(max_count.unwrap_or(usize::MAX))`; no vector is longer than `usize::MAX`.
abbrev pub take_max {ℓ} : {A : Type ℓ} → Option ℕ → List A → List A
take_max none xs = xs
take_max (some n) xs = take n xs

abbrev pub from_version_on : Option ℤ → EventEnvelope → Bool
from_version_on from e = leb_ℤ (unwrap_or (pos 1) from) (pos e.stream_version)

unfoldable pub read_stream :
    StreamId → Option ℤ → Option ℕ → InMemoryEventStore → List EventEnvelope
unfolding look_up
read_stream k from max_count s =
    take_max max_count
      (filter (from_version_on from) (look_up s.events (unwrap_or [] (get k s.stream_events))))

unfoldable pub read_events_by_type :
    EventType → Option Timestamp → Option ℕ → InMemoryEventStore → List EventEnvelope
read_events_by_type t from max_count s = take_max max_count (
    filter (λ e. same_type e.event_type t && leb_ℤ (unwrap_or (pos 0) from) e.recorded_at) s.events)

unfoldable pub read_aggregate_events : EntityId → Option ℤ → InMemoryEventStore → List EventEnvelope
unfolding look_up
read_aggregate_events a from s =
    filter (from_version_on from) (look_up s.events (unwrap_or [] (get a s.aggregate_events)))

unfoldable pub read_events_from_sequence : ℤ → Option ℕ → InMemoryEventStore → List EventEnvelope
read_events_from_sequence from max_count s =
    take_max max_count (filter (λ e. leb_ℤ from (pos e.global_sequence)) s.events)

unfoldable pub get_stream_version : StreamId → InMemoryEventStore → Option ℕ
get_stream_version k s = get k s.stream_versions

unfoldable pub get_latest_sequence : InMemoryEventStore → ℕ
get_latest_sequence s = s.global_sequence

unfoldable pub stream_exists : StreamId → InMemoryEventStore → Bool
stream_exists k s = is_some (get k s.stream_versions)

unfoldable pub delete_stream : StreamId → InMemoryEventStore → InMemoryEventStore
delete_stream k s = record s {
  stream_versions = remove k s.stream_versions;
  stream_events = remove k s.stream_events;
}

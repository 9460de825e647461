-- ===== src/Events/Reading.antt =====
-- What is read from the event store (crates/atomo_server/src/event_store/memory.rs): appends show up at
-- the end, a writer with a stale version is refused, and a reader that goes on after the number it
-- has seen gets exactly what follows.
use atomo.Prelude.{
  Bool, true, false, ℕ, zero, suc, ◌+◌, ◌<◌, false, Option, none, some, List, [], ◌∷◌, ◌++◌, ◌≡◌,
  ◌∙◌, refl, sym, ap, ap₂, subst, arith, length, filter, drop, if◌then◌else◌, nat_eq, nat_eq_iff,
  nat_key, not, ◌-◌,
}
use atomo.Prelude.Int.{ℤ, pos, leb_ℤ}
use atomo.Events.Store.{
  EventEnvelope, InMemoryEventStore, StreamId, EntityId, ok, err, concurrency_conflict, assign,
  current_version, conflict, append_numbered, append_events, take_max, read_stream,
  read_events_from_sequence,
}
use atomo.Events.Numbering.{CountsFrom, log}
use atomo.Events.Numbering.Validity.{IsValid, log-append, append-IsValid, current_version-append}

drop-nil : (m : ℕ) → drop {A = EventEnvelope} m [] ≡ []
drop-nil zero = refl
drop-nil (suc m) = refl

drop-zero : (m : ℕ) (es : List EventEnvelope) → m ≡ 0 → drop m es ≡ es
drop-zero m es h = ap (λ k. drop k es) h

drop-suc :
    (m k : ℕ) (e : EventEnvelope) (es : List EventEnvelope)
    → m ≡ suc k
    → drop m (e ∷ es) ≡ drop k es
drop-suc m k e es h = ap (λ k. drop k (e ∷ es)) h

-- Events that count up, read after a number: the first ones are dropped.
filter-CountsFrom :
    (f : EventEnvelope → ℕ) (n v : ℕ) (es : List EventEnvelope)
    → CountsFrom f (suc v) es
    → filter (λ e. leb_ℤ (pos (suc n)) (pos (f e))) es ≡ drop (n - v) es
filter-CountsFrom f n v [] h = sym (drop-nil (n - v))
filter-CountsFrom f n v (e ∷ es) h =
    let rest = filter-CountsFrom f n (suc v) es h.1 in
    ground (
      arith,
      h.0,
      rest,
      drop-zero (n - v) (e ∷ es),
      drop-zero (n - suc v) es,
      drop-suc (n - v) (n - suc v) e es,
    )

read_all : (k : StreamId) (s : InMemoryEventStore) → IsValid s → read_stream k none none s ≡ log k s
unfolding read_stream log
read_all k s valid =
    filter-CountsFrom (λ e. e.stream_version) 0 0 (log k s) (valid.2 k).1
    ∙ drop-zero (0 - 0) (log k s) (omega arith)

-- In a store whose numbering is right, reading a stream from version n + 1 on gives what follows its
-- first n events, and reading from global number n + 1 on what follows the first n events of all;
-- both cut off at the count that is asked for.
pub reads_after :
    (k : StreamId) (n : ℕ) (max_count : Option ℕ) (s : InMemoryEventStore)
    → IsValid s
    → (read_stream k (some (pos (suc n))) max_count s
        ≡ take_max max_count (drop n (read_stream k none none s)))
      × (read_events_from_sequence (pos (suc n)) max_count s ≡ take_max max_count (drop n s.events))
unfolding read_events_from_sequence log read_stream
reads_after k n max_count s valid = (
  ap (take_max max_count) (
      filter-CountsFrom (λ e. e.stream_version) n 0 (log k s) (valid.2 k).1
      ∙ ap₂ (λ m es. drop m es) (omega arith) (sym (read_all k s valid))),
  ap (take_max max_count) (
      filter-CountsFrom (λ e. e.global_sequence) n 0 s.events valid.0
      ∙ ap (λ m. drop m s.events) (omega arith)),
)

-- When the version of a stream is the expected one, or none is expected, `append_events` succeeds:
-- the stream then reads as before with the events at its end, under the next versions and the next
-- global numbers, and its version has grown by their number; every other stream reads as before and
-- has the version it had; and the numbering is right again.
pub append_events_lem :
    (draw : ℕ → EntityId) (k : StreamId) (expected : Option ℤ) (es : List EventEnvelope)
    (s : InMemoryEventStore) (j : StreamId)
    → IsValid s
    → conflict expected (current_version k s) ≡ false
    → let s' = append_numbered draw k es s in
      (append_events draw k expected es s ≡ ok s')
      × (read_stream j none none s'
          ≡ read_stream j none none s
            ++ (if nat_eq k j then assign (current_version k s + 1) s.global_sequence es else []))
      × (current_version j s'
          ≡ (if nat_eq k j then current_version j s + length es else current_version j s))
      × IsValid s'
unfolding append_events
append_events_lem draw k expected es s j valid free =
    let s' = append_numbered draw k es s in
    let valid' = append-IsValid draw k es s valid in
    (
      ground arith,
      read_all j s' valid'
          ∙ log-append draw k es s valid j
          ∙ ap
              (λ l.
                l
                ++ (if nat_eq k j
                    then assign (current_version k s + 1) s.global_sequence es
                    else []))
              (sym (read_all j s valid)),
      current_version-append draw k es s j
          ∙ same_version (nat_eq k j) (λ h. ground (arith, nat_eq_iff k j)),
      valid',
    )
  where
    same_version :
        (b : Bool)
        → (b ≡ true → k ≡ j)
        → (if b then current_version k s + length es else current_version j s)
          ≡ (if b then current_version j s + length es else current_version j s)
    same_version true h = ap (λ i. current_version i s + length es) (h refl)
    same_version false h = refl

-- Of two writers that both saw one version of a stream and expect it, the second is refused once the
-- first has appended an event, and is told the version that the first one's events led to.
pub second_writer_refused :
    (draw draw' : ℕ → EntityId) (k : StreamId) (es es' : List EventEnvelope)
    → (s s' : InMemoryEventStore) → 0 < length es
    → append_events draw k (some (pos (current_version k s))) es s ≡ ok s'
    → append_events draw' k (some (pos (current_version k s))) es' s'
      ≡ err (concurrency_conflict (pos (current_version k s)) (current_version k s + length es))
unfolding append_events
second_writer_refused draw draw' k es es' s s' some_events first =
    subst
      (λ t.
        append_events draw' k (some (pos (current_version k s))) es' t
        ≡ err (concurrency_conflict (pos (current_version k s)) (current_version k s + length es)))
      (ok-injective (append_numbered draw k es s) s'
        (ground (arith, nat_eq_iff (current_version k s) (current_version k s))))
      (refused (current_version k (append_numbered draw k es s))
        (current_version-append draw k es s k ∙ ground (arith, nat_eq_iff k k)))
  where
    ok-injective : (a b : InMemoryEventStore) → ok a ≡ ok b → a ≡ b
    ok-injective a b h = ground arith

    refused :
        (v : ℕ)
        → v ≡ current_version k s + length es
        → (if not (nat_eq v (current_version k s))
            then err (concurrency_conflict (pos (current_version k s)) v)
            else ok (append_numbered draw' k es' (append_numbered draw k es s)))
          ≡ err (concurrency_conflict (pos (current_version k s)) (current_version k s + length es))
    refused v h = ground (arith, nat_eq_iff v (current_version k s))

-- ===== src/Events/Numbering/Validity.antt =====
-- What always holds of the numbers and indices (crates/atomo_server/src/event_store/memory.rs).
use atomo.Prelude.{
  unwrap_or, ℕ, ◌+◌, ◌<◌, Bool, true, false, Option, none, List, [], ◌++◌, ◌≡◌, ◌∙◌, refl, sym, ap,
  ap₂, subst, arith, length, length-append, if◌then◌else◌, nat_eq, nat_eq_iff, nat_key, All,
}
use atomo.Prelude.Map.{get, get-insert, get-remove}
use atomo.Events.Store.{
  EventEnvelope, InMemoryEventStore, StreamId, EntityId, new, assign, current_version,
  append_numbered, look_up, delete_stream,
}
use atomo.Events.Numbering.{
  range, length-assign, assign-NumberedFrom, assign-SequencedFrom, append-NumberedFrom,
  append-SequencedFrom, indices-index_all, get_elem?-append_right, look_up-append,
  look_up-append_indices, look_up-range, range-lt, All-lt-append, NumberedFrom, SequencedFrom,
  indices, log,
}

-- What holds of one stream: its indices are events of the store, their versions count from 1, and
-- there are as many of them as its version says.
abbrev pub IsStream : StreamId → InMemoryEventStore → Type 0
IsStream k s =
    All (λ i. i < length s.events) (indices k s)
    × NumberedFrom 1 (look_up s.events (indices k s))
    × (length (look_up s.events (indices k s)) ≡ current_version k s)

abbrev pub IsValid : InMemoryEventStore → Type 0
IsValid s =
    SequencedFrom 0 s.events
    × (s.global_sequence ≡ length s.events)
    × ((k : StreamId) → IsStream k s)

pub new-IsValid : IsValid new
unfolding new look_up get
new-IsValid = (tt, refl, λ k. (tt, tt, refl))

-- After an append the appended events stand at the end of their stream, with the next versions and
-- the next global numbers, and every other stream is as it was.
pub log-append :
    (draw : ℕ → EntityId) (k : StreamId) (es : List EventEnvelope) (s : InMemoryEventStore)
    → IsValid s
    → (j : StreamId)
    → log j (append_numbered draw k es s)
      ≡ log j s
        ++ (if nat_eq k j then assign (current_version k s + 1) s.global_sequence es else [])
unfolding log append_numbered
log-append draw k es s valid j =
    let numbered = assign (current_version k s + 1) s.global_sequence es in
    let all = s.events ++ numbered in
    ap (look_up all) (indices-index_all draw k (length s.events) numbered s j)
    ∙ look_up-append_indices all (indices j s)
        (if nat_eq k j then range (length s.events) (length numbered) else [])
    ∙ ap₂ (λ a b. a ++ b) (look_up-append s.events numbered (indices j s) (valid.2 j).0)
        (branch (nat_eq k j) all numbered
          (look_up-range all numbered (length s.events) (get_elem?-append_right s.events numbered)))
  where
    branch :
        (b : Bool) (all numbered : List EventEnvelope)
        → look_up all (range (length s.events) (length numbered)) ≡ numbered
        → look_up all (if b then range (length s.events) (length numbered) else [])
          ≡ (if b then numbered else [])
    branch true all numbered h = h
    branch false all numbered h = refl

pub current_version-append :
    (draw : ℕ → EntityId) (k : StreamId) (es : List EventEnvelope) (s : InMemoryEventStore)
    (j : StreamId)
    → current_version j (append_numbered draw k es s)
      ≡ (if nat_eq k j then current_version k s + length es else current_version j s)
unfolding append_numbered
current_version-append draw k es s j =
    ground (arith, get-insert k j (current_version k s + length es) s.stream_versions)

module _ (draw : ℕ → EntityId) (k : StreamId) (es : List EventEnvelope)
    (s : InMemoryEventStore) where
  indices-append :
      (j : StreamId)
      → indices j (append_numbered draw k es s)
        ≡ indices j s ++ (if nat_eq k j then range (length s.events) (length es) else [])
  unfolding append_numbered
  indices-append j =
      indices-index_all draw k (length s.events)
        (assign (current_version k s + 1) s.global_sequence es) s j
      ∙ ap (λ n. indices j s ++ (if nat_eq k j then range (length s.events) n else []))
          (length-assign (current_version k s + 1) s.global_sequence es)

  length-append_numbered : length (append_numbered draw k es s).events ≡ length s.events + length es
  unfolding append_numbered
  length-append_numbered = omega (
    arith,
    length-append s.events (assign (current_version k s + 1) s.global_sequence es),
    length-assign (current_version k s + 1) s.global_sequence es,
  )

  added_lt :
      (b : Bool)
      → All
          (λ i. i < length s.events + length es)
          (if b then range (length s.events) (length es) else [])
  added_lt true = range-lt (length s.events) (length es) _ (omega arith)
  added_lt false = tt

  added-NumberedFrom :
      (b : Bool) (v : ℕ)
      → (b ≡ true → v ≡ current_version k s + 1)
      → NumberedFrom v (if b then assign (current_version k s + 1) s.global_sequence es else [])
  added-NumberedFrom true v h =
      subst (λ w. NumberedFrom w (assign (current_version k s + 1) s.global_sequence es))
        (sym (h refl)) (assign-NumberedFrom (current_version k s + 1) s.global_sequence es)
  added-NumberedFrom false v h = tt

  length-added :
      (b : Bool)
      → length (if b then assign (current_version k s + 1) s.global_sequence es else [])
        ≡ (if b then length es else 0)
  length-added true = length-assign (current_version k s + 1) s.global_sequence es
  length-added false = refl

  module _ (valid : IsValid s) where
    version_same : (j : StreamId) → nat_eq k j ≡ true → current_version j s ≡ current_version k s
    version_same j h = ap (λ i. current_version i s) (sym (ground (arith, nat_eq_iff k j)))

    append-IsStream : (j : StreamId) → IsStream j (append_numbered draw k es s)
    unfolding log
    append-IsStream j =
        let old = valid.2 j in
        (
          subst (All (λ i. i < length (append_numbered draw k es s).events))
              (sym (indices-append j))
              (subst
                (λ n.
                  All (λ i. i < n)
                    (indices j s
                      ++ (if nat_eq k j then range (length s.events) (length es) else [])))
                (sym length-append_numbered)
                (All-lt-append (length s.events) (length s.events + length es) (indices j s)
                  (if nat_eq k j then range (length s.events) (length es) else []) (omega arith)
                  old.0 (added_lt (nat_eq k j)))),
          subst (NumberedFrom 1) (sym (log-append draw k es s valid j)) (
              append-NumberedFrom 1 (log j s)
                (if nat_eq k j then assign (current_version k s + 1) s.global_sequence es else [])
                old.1
                (added-NumberedFrom (nat_eq k j) (1 + length (log j s))
                  (λ h. omega (arith, version_same j h, old.2)))),
          ap length (log-append draw k es s valid j)
              ∙ length-append (log j s)
                  (if nat_eq k j then assign (current_version k s + 1) s.global_sequence es else [])
              ∙ ground (
                arith,
                nat_eq_iff k j,
                version_same j,
                old.2,
                length-added (nat_eq k j),
                current_version-append draw k es s j,
              ),
        )

    -- Appending keeps the numbering, whatever the stream and the events.
    pub append-IsValid : IsValid (append_numbered draw k es s)
    unfolding append_numbered
    append-IsValid = (
      append-SequencedFrom 0 s.events (assign (current_version k s + 1) s.global_sequence es)
          valid.0
          (subst (λ g. SequencedFrom g (assign (current_version k s + 1) s.global_sequence es))
            (valid.1 ∙ omega arith)
            (assign-SequencedFrom (current_version k s + 1) s.global_sequence es)),
      omega (arith, valid.1, length-append_numbered),
      append-IsStream,
    )

StreamAt : List EventEnvelope → Option (List ℕ) × Option ℕ → Type 0
StreamAt es (o, v) =
    All (λ i. i < length es) (unwrap_or [] o)
    × NumberedFrom 1 (look_up es (unwrap_or [] o))
    × (length (look_up es (unwrap_or [] o)) ≡ unwrap_or 0 v)

-- In a store whose numbering is right, it is right after any stream is deleted: the other streams
-- are as they were, and the deleted one counts from 1 again.
pub delete_stream-IsValid :
    (k : StreamId) (s : InMemoryEventStore) → IsValid s → IsValid (delete_stream k s)
unfolding delete_stream StreamAt look_up
delete_stream-IsValid k s valid = (
  valid.0,
  valid.1,
  λ j.
      subst (StreamAt s.events)
        (sym
          (ap₂ (λ o v. (o, v)) (get-remove k j s.stream_events) (get-remove k j s.stream_versions)))
        (kept j (nat_eq k j)),
)
  where
    kept :
        (j : StreamId) (b : Bool)
        → StreamAt s.events
            (if b then none else get j s.stream_events, if b then none else get j s.stream_versions)
    kept j true = (tt, tt, refl)
    kept j false = valid.2 j

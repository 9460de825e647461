-- ===== src/Events/Numbering.antt =====
-- The numbers that the event store gives (crates/atomo_server/src/event_store/memory.rs): each stream
-- counts its events from 1, and the global sequence counts all of them.
pub mod Validity
use atomo.Prelude.{
  unwrap_or, ℕ, zero, suc, ◌+◌, ◌<◌, ◌≤◌, Bool, true, false, Option, none, some, List, [], ◌∷◌,
  ◌++◌, ◌≡◌, ◌∙◌, refl, sym, ap, ap₂, subst, arith, length, length-append, get_elem?, filter,
  if◌then◌else◌, nat_eq, nat_eq_iff, nat_key, All,
}
use atomo.Prelude.Map.{Map, get, insert, get-insert, get-remove}
use atomo.Events.Store.{
  EventEnvelope, InMemoryEventStore, StreamId, EntityId, new, clear, assign, push, index_all,
  current_version, append_numbered, look_up, delete_stream,
}

-- The numbers that `f` reads count up.
abbrev pub CountsFrom : (EventEnvelope → ℕ) → ℕ → List EventEnvelope → Type 0
CountsFrom f v [] = Unit {0}
CountsFrom f v (e ∷ es) = (f e ≡ v) × CountsFrom f (suc v) es

abbrev pub NumberedFrom : ℕ → List EventEnvelope → Type 0
NumberedFrom = CountsFrom (λ e. e.stream_version)

abbrev pub SequencedFrom : ℕ → List EventEnvelope → Type 0
SequencedFrom g = CountsFrom (λ e. e.global_sequence) (suc g)

abbrev pub indices : StreamId → InMemoryEventStore → List ℕ
indices k s = unwrap_or [] (get k s.stream_events)

-- All events of a stream.
unfoldable pub log : StreamId → InMemoryEventStore → List EventEnvelope
unfolding look_up
log k s = look_up s.events (indices k s)

unfoldable pub range : ℕ → ℕ → List ℕ
range i zero = []
range i (suc n) = i ∷ range (suc i) n

pub append-nil : {A : Type 0} (xs : List A) → xs ++ [] ≡ xs
append-nil [] = refl
append-nil (x ∷ xs) = ap (λ l. x ∷ l) (append-nil xs)

pub append_assoc : {A : Type 0} (xs ys zs : List A) → (xs ++ ys) ++ zs ≡ xs ++ (ys ++ zs)
append_assoc [] ys zs = refl
append_assoc (x ∷ xs) ys zs = ap (λ l. x ∷ l) (append_assoc xs ys zs)

pub length-assign : (v g : ℕ) (es : List EventEnvelope) → length (assign v g es) ≡ length es
unfolding assign
length-assign v g [] = refl
length-assign v g (e ∷ es) = ap suc (length-assign (suc v) (suc g) es)

pub assign-NumberedFrom : (v g : ℕ) (es : List EventEnvelope) → NumberedFrom v (assign v g es)
unfolding assign
assign-NumberedFrom v g [] = tt
assign-NumberedFrom v g (e ∷ es) = (refl, assign-NumberedFrom (suc v) (suc g) es)

pub assign-SequencedFrom : (v g : ℕ) (es : List EventEnvelope) → SequencedFrom g (assign v g es)
unfolding assign
assign-SequencedFrom v g [] = tt
assign-SequencedFrom v g (e ∷ es) = (refl, assign-SequencedFrom (suc v) (suc g) es)

pub append-NumberedFrom :
    (v : ℕ) (es ns : List EventEnvelope)
    → NumberedFrom v es
    → NumberedFrom (v + length es) ns
    → NumberedFrom v (es ++ ns)
append-NumberedFrom v [] ns a b = subst (λ w. NumberedFrom w ns) (omega arith) b
append-NumberedFrom v (e ∷ es) ns a b =
    (a.0, append-NumberedFrom (suc v) es ns a.1 (subst (λ w. NumberedFrom w ns) (omega arith) b))

pub append-SequencedFrom :
    (v : ℕ) (es ns : List EventEnvelope)
    → SequencedFrom v es
    → SequencedFrom (v + length es) ns
    → SequencedFrom v (es ++ ns)
append-SequencedFrom v [] ns a b = subst (λ w. SequencedFrom w ns) (omega arith) b
append-SequencedFrom v (e ∷ es) ns a b =
    (a.0, append-SequencedFrom (suc v) es ns a.1 (subst (λ w. SequencedFrom w ns) (omega arith) b))

-- The loop that indexes adds one index for each event to its stream.
pub indices-index_all :
    (draw : ℕ → EntityId) (k : StreamId) (i : ℕ) (es : List EventEnvelope) (s : InMemoryEventStore)
    → (j : StreamId)
    → indices j (index_all draw k i es s)
      ≡ indices j s ++ (if nat_eq k j then range i (length es) else [])
unfolding index_all range
indices-index_all draw k i [] s j = ground (arith, append-nil (indices j s))
indices-index_all draw k i (e ∷ es) s j = ground (
  arith,
  nat_eq_iff k j,
  get-insert k j (indices k s ++ i ∷ []) s.stream_events,
  append_assoc (indices j s) (i ∷ []) (range (suc i) (length es)),
  indices-index_all draw k (suc i) es
      (record s {
        stream_events = push k i s.stream_events;
        aggregate_events = push (unwrap_or (draw i) e.metadata.user_id) i s.aggregate_events;
      })
      j,
)

pub get_elem?-append :
    {A : Type 0} (es ns : List A) (i : ℕ) → i < length es → get_elem? (es ++ ns) i ≡ get_elem? es i
get_elem?-append [] ns i h = ground arith
get_elem?-append (e ∷ es) ns zero h = refl
get_elem?-append (e ∷ es) ns (suc i) h = get_elem?-append es ns i (omega arith)

pub get_elem?-append_right :
    {A : Type 0} (es ns : List A) (i : ℕ) → get_elem? (es ++ ns) (length es + i) ≡ get_elem? ns i
get_elem?-append_right [] ns i = ap (get_elem? ns) (omega arith)
get_elem?-append_right (e ∷ es) ns i =
    ap (get_elem? (e ∷ es ++ ns)) (step_index (length es)) ∙ get_elem?-append_right es ns i
  where
    step_index : (n : ℕ) → suc n + i ≡ suc (n + i)
    step_index n = omega arith

-- Events that are appended to the store change nothing for the indices that were there.
pub look_up-append :
    (es ns : List EventEnvelope) (is : List ℕ)
    → All (λ i. i < length es) is
    → look_up (es ++ ns) is ≡ look_up es is
unfolding look_up
look_up-append es ns [] h = refl
look_up-append es ns (i ∷ is) h =
    ground (arith, get_elem?-append es ns i, look_up-append es ns is h.1)

pub look_up-append_indices :
    (es : List EventEnvelope) (is js : List ℕ)
    → look_up es (is ++ js) ≡ look_up es is ++ look_up es js
unfolding look_up
look_up-append_indices es [] js = refl
look_up-append_indices es (i ∷ is) js = ground (arith, look_up-append_indices es is js)

pub look_up-range :
    (es ns : List EventEnvelope) (i : ℕ)
    → ((n : ℕ) → get_elem? es (i + n) ≡ get_elem? ns n)
    → look_up es (range i (length ns)) ≡ ns
unfolding look_up range
look_up-range es [] i h = refl
look_up-range es (e ∷ ns) i h =
    ground
      (arith, h 0, look_up-range es ns (suc i) (λ n. ap (get_elem? es) (omega arith) ∙ h (suc n)))

pub range-lt : (i n m : ℕ) → i + n ≤ m → All (λ j. j < m) (range i n)
unfolding range
range-lt i zero m h = tt
range-lt i (suc n) m h = (omega arith, range-lt (suc i) n m (omega arith))

pub All-lt-append :
    (m m' : ℕ) (is js : List ℕ)
    → m ≤ m'
    → All (λ i. i < m) is
    → All (λ i. i < m') js
    → All (λ i. i < m') (is ++ js)
All-lt-append m m' [] js h a b = b
All-lt-append m m' (i ∷ is) js h a b = (omega (arith, a.0), All-lt-append m m' is js h a.1 b)

-- ===== src/Projections/Replay/Presence.antt =====
-- Which rows a rebuild of a projection leaves (crates/atomo_projectors/src/projection.rs).
use atomo.Prelude.{
  string_key, String, Bool, true, false, ◌&&◌, ◌||◌, not, Option, none, some, is_some, List, [],
  ◌∷◌, contains, contains-filter, filter, str_eq, if◌then◌else◌, ◌≡◌, refl, sym, ap, ◌∙◌, subst,
  arith, eq_iff, Bool-cases, inl, inr, is_some_and,
}
use atomo.Prelude.Map.{get, get-insert, get-remove}
use atomo.Prelude.Sorting.{sort_by}
use atomo.Projections.{
  Row, ProjectionError, refused, distinct, all_known, ProjectionTable, Result, ok, err, and_then,
  can_insert,
}
use atomo.Projections.Replay.{
  Fields, text_of, given, bound, set_fields, insert_new, on_created, update_found, on_updated,
  on_deleted, creates, deletes, handle_event_connection, LogEntry, entry_le, replay, Coverage,
  require_complete_history, rebuild_in,
}

abbrev pub has_row : String → ProjectionTable → Bool
has_row id t = is_some (get id t.rows)

abbrev is_id : String → Option String → Bool
is_id id o = is_some_and (λ (k : String). str_eq k id) o

-- The events that make an entity, and those that end it.
abbrev pub makes : String → Bool
makes event_type = str_eq event_type "Created" || str_eq event_type "Restored"

abbrev pub ends : String → Bool
ends event_type = str_eq event_type "Deleted" || str_eq event_type "HardDeleted"

-- Whether an entity has a row after an event, if it had one before: an event that makes it gives it one,
-- and an event that ends it takes it.
abbrev pub present_after : String → String → Fields → Bool → Bool
present_after id event_type fields was =
    if makes event_type
    then is_some (get "id" fields) && str_eq (bound "id" fields) id || was
    else if str_eq event_type "Updated"
    then was
    else if ends event_type && is_id id (text_of (get "id" fields))
    then false
    else was

abbrev pub present : String → List LogEntry → Bool → Bool
present id [] was = was
present id (e ∷ es) was = present id es (present_after id e.event_type e.fields was)

ok_value : {A : Type 0} → A → Result A → A
ok_value a (ok b) = b
ok_value a (err e) = a

pub from_ok : {A : Type 0} (P : A → Type 0) {a b : A} → ok a ≡ ok b → P a → P b
unfolding ok_value
from_ok P {a} {b} h p = subst P (ap (ok_value a) h) p

pub chain :
    {A B : Type 0} (r : Result A) (f : A → Result B) (b : B)
    → and_then r f ≡ ok b
    → (a : A) × (r ≡ ok a) × (f a ≡ ok b)
chain (ok a) f b h = (a, refl, h)
chain (err e) f b h = ground (arith, h)

then_ok :
    {A : Type 0} (b : Bool) (e : ProjectionError) {x y : A}
    → b ≡ true
    → (if b then ok x else err e) ≡ ok y
    → ok x ≡ ok y
then_ok true e is h = h
then_ok false e is h = ground (arith, is)

abbrev Has : String → Bool → ProjectionTable → Type 0
Has id b t = has_row id t ≡ b

can_insert-id :
    (cs : List String) (t : ProjectionTable) → can_insert cs t ≡ true → contains cs "id" ≡ true
unfolding can_insert
can_insert-id cs t h = ground (arith, h)

inserted_lem :
    (cs : List String) (fields : Fields) (o : Option Row) (t : ProjectionTable) (id : String)
    → get (bound "id" fields) t.rows ≡ o
    → has_row id (insert_new cs fields o t) ≡ (str_eq (bound "id" fields) id || has_row id t)
inserted_lem cs fields none t id at =
    ground (arith, get-insert (bound "id" fields) id (set_fields cs fields []) t.rows)
inserted_lem cs fields (some r) t id at = elim (Bool-cases (str_eq (bound "id" fields) id)) [
  | inl same ↦
      let there =
        subst (λ (k : String). get k t.rows ≡ some r) ((eq_iff (bound "id" fields) id).0 same) at in
      ground (arith, same, there)
  | inr other ↦ ground (arith, other)
]

created_lem :
    (cs : List String) (fields : Fields) (t t' : ProjectionTable) (id : String)
    → contains cs "id" ≡ is_some (get "id" fields)
    → on_created cs fields t ≡ ok t'
    → has_row id t' ≡ (is_some (get "id" fields) && str_eq (bound "id" fields) id || has_row id t)
created_lem [] fields t t' id has h =
    from_ok (Has id (is_some (get "id" fields) && str_eq (bound "id" fields) id || has_row id t)) h
      (ground (arith, has))
created_lem (c ∷ cs) fields t t' id has h = elim (Bool-cases (can_insert (c ∷ cs) t)) [
  | inl can ↦
      let b = bound "id" fields in
      from_ok (Has id (is_some (get "id" fields) && str_eq b id || has_row id t))
        (then_ok (can_insert (c ∷ cs) t) refused can h)
        (inserted_lem (c ∷ cs) fields (get b t.rows) t id refl
          ∙ ap (λ (g : Bool). g && str_eq b id || has_row id t)
              (sym (can_insert-id (c ∷ cs) t can) ∙ has))
  | inr cannot ↦ ground (arith, cannot, h)
]

kept_lem :
    (cs : List String) (j : String) (fields : Fields) (o : Option Row) (t : ProjectionTable)
    (id : String)
    → get j t.rows ≡ o
    → has_row id (update_found cs j fields o t) ≡ has_row id t
kept_lem cs j fields none t id at = refl
kept_lem cs j fields (some r) t id at = elim (Bool-cases (str_eq j id)) [
  | inl same ↦
      let there = subst (λ (k : String). get k t.rows ≡ some r) ((eq_iff j id).0 same) at in
      ground (arith, same, there, get-insert j id (set_fields cs fields r) t.rows)
  | inr other ↦ ground (arith, other, get-insert j id (set_fields cs fields r) t.rows)
]

updated_lem :
    (cs : List String) (o : Option String) (fields : Fields) (t t' : ProjectionTable) (id : String)
    → on_updated cs o fields t ≡ ok t'
    → has_row id t' ≡ has_row id t
updated_lem cs none fields t t' id h = from_ok (Has id (has_row id t)) h refl
updated_lem [] (some j) fields t t' id h = from_ok (Has id (has_row id t)) h refl
updated_lem (c ∷ cs) (some j) fields t t' id h =
    elim (Bool-cases (distinct (c ∷ cs) && (t.has_key && all_known (c ∷ cs) t))) [
      | inl can ↦
          from_ok (Has id (has_row id t))
            (then_ok (distinct (c ∷ cs) && (t.has_key && all_known (c ∷ cs) t)) refused can h)
            (kept_lem (c ∷ cs) j fields (get j t.rows) t id refl)
      | inr cannot ↦ ground (arith, cannot, h)
    ]

deleted_lem :
    (o : Option String) (t t' : ProjectionTable) (id : String)
    → on_deleted o t ≡ ok t'
    → has_row id t' ≡ (if is_id id o then false else has_row id t)
deleted_lem none t t' id h = from_ok (Has id (has_row id t)) h refl
deleted_lem (some j) t t' id h = elim (Bool-cases t.has_key) [
  | inl can ↦
      from_ok (Has id (if str_eq j id then false else has_row id t))
        (then_ok t.has_key refused can h) (ground (arith, get-remove j id t.rows))
  | inr cannot ↦ ground (arith, cannot, h)
]

-- The branches of a handler, by the tests on the event's type.
branches :
    (a b c m e : Bool) (r₁ r₂ r₃ : Result ProjectionTable) (t t' : ProjectionTable) (id : String)
    → (r₁ ≡ ok t' → has_row id t' ≡ m)
    → (r₂ ≡ ok t' → has_row id t' ≡ has_row id t)
    → (r₃ ≡ ok t' → has_row id t' ≡ (if e then false else has_row id t))
    → (if a then r₁ else if b then r₂ else if c then r₃ else ok t) ≡ ok t'
    → has_row id t'
      ≡ (if a then m else if b then has_row id t else if c && e then false else has_row id t)
branches true b c m e r₁ r₂ r₃ t t' id f g k h = f h
branches false true c m e r₁ r₂ r₃ t t' id f g k h = g h
branches false false true m e r₁ r₂ r₃ t t' id f g k h = k h
branches false false false m e r₁ r₂ r₃ t t' id f g k h = from_ok (Has id (has_row id t)) h refl

handle_lem :
    (cs : List String) (event_type : String) (fields : Fields) (t t' : ProjectionTable)
    (id : String)
    → contains cs "id" ≡ true
    → handle_event_connection cs event_type fields t ≡ ok t'
    → has_row id t' ≡ present_after id event_type fields (has_row id t)
unfolding handle_event_connection
handle_lem cs event_type fields t t' id has h =
    let o = text_of (get "id" fields) in
    let changed = filter (λ (c : String). not (str_eq c "id")) (given cs fields) in
    branches (creates event_type) (str_eq event_type "Updated") (deletes event_type)
      (is_some (get "id" fields) && str_eq (bound "id" fields) id || has_row id t) (is_id id o)
      (on_created (given cs fields) fields t) (on_updated changed o fields t) (on_deleted o t) t t'
      id
      (created_lem (given cs fields) fields t t' id
        (contains-filter (λ (c : String). is_some (get c fields)) cs "id" ∙ ground (arith, has)))
      (updated_lem changed o fields t t' id) (deleted_lem o t t' id) h

replay_lem :
    (cs : List String) (log : List LogEntry) (t t' : ProjectionTable) (id : String)
    → contains cs "id" ≡ true
    → replay cs log t ≡ ok t'
    → has_row id t' ≡ present id log (has_row id t)
unfolding replay
replay_lem cs [] t t' id has h = from_ok (Has id (has_row id t)) h refl
replay_lem cs (e ∷ es) t t' id has h =
    let (t₁, first, rest) =
      chain (handle_event_connection cs e.event_type e.fields t) (λ x. replay cs es x) t' h in
    replay_lem cs es t₁ t' id has rest
    ∙ ap (present id es) (handle_lem cs e.event_type e.fields t t₁ id has first)

-- If a rebuild of a projection with a column `id` succeeds, an entity has a row exactly if its history says so: read in
-- order, the last event of the model that makes or ends it makes it.
pub rebuild_in_lem :
    (cs : List String) (model : String) (coverage : Coverage) (log : List LogEntry)
    (t t' : ProjectionTable) (id : String)
    → contains cs "id" ≡ true
    → rebuild_in cs model coverage log t ≡ ok t'
    → is_some (get id t'.rows)
      ≡ present id (sort_by entry_le (filter (λ e. str_eq e.model_name model) log)) false
unfolding rebuild_in get
rebuild_in_lem cs model coverage log t t' id has h =
    let history = sort_by entry_le (filter (λ (e : LogEntry). str_eq e.model_name model) log) in
    let empty = record t { rows = [] } in
    let (u, checked, rest) =
      chain (require_complete_history model coverage) (λ u. replay cs history empty) t' h in
    replay_lem cs history empty t' id has rest

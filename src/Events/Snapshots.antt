-- ===== src/Events/Snapshots.antt =====
-- The snapshot store that keeps its snapshots in memory (crates/atomo_server/src/event_store/memory.rs):
-- each aggregate has a list of them, in the order in which they were saved.
pub mod Keeping
use atomo.Prelude.{
  unwrap_or, ℕ, ◌-◌, Bool, true, false, Option, none, some, List, [], ◌∷◌, ◌++◌, length, drop,
  filter, ltb, if◌then◌else◌, nat_key,
}
use atomo.Prelude.Int.{ℤ, leb_ℤ}
use atomo.Prelude.Map.{Map, get, insert}
use atomo.Prelude.Sorting.{sort_by}
use atomo.Events.Store.{EntityId}

-- What the store asks of the snapshots that it keeps.
pub record Snapshot (S : Type 0) : Type 0 where
  pub aggregate_id : S → EntityId
  pub version : S → ℤ

pub record InMemorySnapshotStore (S : Type 0) : Type 0 where
  pub snapshots : Map EntityId (List S)

module _ {S : Type 0} where
  -- `Vec::last`
  unfoldable pub last : List S → Option S
  last [] = none
  last (x ∷ []) = some x
  last (x ∷ y ∷ xs) = last (y ∷ xs)

  -- All snapshots of an aggregate.
  unfoldable pub kept : EntityId → InMemorySnapshotStore S → List S
  kept a s = unwrap_or [] (get a s.snapshots)

  unfoldable pub load_snapshot : EntityId → InMemorySnapshotStore S → Option S
  unfolding last kept
  load_snapshot a s = last (kept a s)

module _ {S : Type 0} (snap : Snapshot S) where
  unfoldable pub save_snapshot : S → InMemorySnapshotStore S → InMemorySnapshotStore S
  unfolding kept
  save_snapshot x s =
      let a = snap.aggregate_id x in
      record { snapshots = insert a (kept a s ++ x ∷ []) s.snapshots }

  -- `max_by_key`: of several greatest ones, the last.
  abbrev pub greater : S → Option S → S
  greater x none = x
  greater x (some y) = if leb_ℤ (snap.version x) (snap.version y) then y else x

  unfoldable pub max_by_version : List S → Option S
  max_by_version [] = none
  max_by_version (x ∷ xs) = some (greater x (max_by_version xs))

  unfoldable pub load_snapshot_at_version : EntityId → ℤ → InMemorySnapshotStore S → Option S
  unfolding max_by_version kept
  load_snapshot_at_version a v s =
      max_by_version (filter (λ x. leb_ℤ (snap.version x) v) (kept a s))

  abbrev pub by_version : S → S → Bool
  by_version x y = leb_ℤ (snap.version x) (snap.version y)

  -- What `cleanup_snapshots` does to the list of an aggregate.
  unfoldable pub cleaned : ℕ → List S → List S
  cleaned keep_count xs =
      if ltb keep_count (length xs)
      then drop (length xs - keep_count) (sort_by by_version xs)
      else xs

  unfoldable pub cleanup_found :
      Option (List S) → EntityId → ℕ → InMemorySnapshotStore S → InMemorySnapshotStore S
  unfolding cleaned
  cleanup_found none a keep_count s = s
  cleanup_found (some xs) a keep_count s = record {
    snapshots = insert a (cleaned keep_count xs) s.snapshots;
  }

  unfoldable pub cleanup_snapshots :
      EntityId → ℕ → InMemorySnapshotStore S → InMemorySnapshotStore S
  unfolding cleanup_found
  cleanup_snapshots a keep_count s = cleanup_found (get a s.snapshots) a keep_count s

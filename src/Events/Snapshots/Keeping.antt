-- ===== src/Events/Snapshots/Keeping.antt =====
-- What is loaded and what is cleaned up (crates/atomo_server/src/event_store/memory.rs).
use atomo.Prelude.{
  unwrap_or, ℕ, suc, ◌-◌, ◌<◌, Bool, true, false, Option, none, some, List, [], ◌∷◌, ◌++◌, ◌≡◌, ◌∙◌,
  refl, sym, ap, subst, arith, length, take, drop, length-drop, get_elem?, filter, if◌then◌else◌,
  All, nat_eq, nat_eq_iff, nat_key,
}
use atomo.Prelude.Int.{ℤ, leb_ℤ}
use atomo.Prelude.Map.{get, insert, get-insert}
use atomo.Prelude.Sorting.{
  sort_by, IsTotal, IsOrderedBy, sort_by-IsOrderedBy, length-sort_by, split-Perm, split-IsOrderedBy,
}
use mathlib.Core.List.{Perm}
use atomo.Events.Store.{EntityId}
use atomo.Events.Snapshots.{
  Snapshot, InMemorySnapshotStore, last, kept, load_snapshot, save_snapshot, greater,
  max_by_version, load_snapshot_at_version, by_version, cleaned, cleanup_found, cleanup_snapshots,
}

last-append : {S : Type 0} (xs : List S) (x : S) → last (xs ++ x ∷ []) ≡ some x
unfolding last
last-append [] x = refl
last-append (y ∷ []) x = refl
last-append (y ∷ z ∷ xs) x = last-append (z ∷ xs) x

module _ {S : Type 0} (snap : Snapshot S) where
  -- After a snapshot is saved, it is what its aggregate loads; what another aggregate loads is as it
  -- was.
  pub load-save :
      (x : S) (s : InMemorySnapshotStore S) (a : EntityId)
      → load_snapshot a (save_snapshot snap x s)
        ≡ (if nat_eq (snap.aggregate_id x) a then some x else load_snapshot a s)
  unfolding load_snapshot save_snapshot
  load-save x s a = ground (
    arith,
    get-insert (snap.aggregate_id x) a (kept (snap.aggregate_id x) s ++ x ∷ []) s.snapshots,
    last-append (kept (snap.aggregate_id x) s) x,
  )

  -- The greatest of a list, which is in the list.
  abbrev pub IsGreatest : List S → Option S → Type 0
  IsGreatest xs none = xs ≡ []
  IsGreatest xs (some x) =
      All (λ y. by_version snap y x ≡ true) xs × ((i : ℕ) × (get_elem? xs i ≡ some x))

  by_version-IsTotal : IsTotal (by_version snap)
  by_version-IsTotal = record { total = λ a b h. ground arith; trans = λ a b c h g. ground arith }

  max_by_version-IsGreatest : (xs : List S) → IsGreatest xs (max_by_version snap xs)
  unfolding max_by_version
  max_by_version-IsGreatest [] = refl
  max_by_version-IsGreatest (x ∷ xs) =
      with_first (max_by_version snap xs) (max_by_version-IsGreatest xs)
    where
      All-le :
          (y z : S) (ys : List S)
          → by_version snap y z ≡ true
          → All (λ k. by_version snap k y ≡ true) ys
          → All (λ k. by_version snap k z ≡ true) ys
      All-le y z [] h all = tt
      All-le y z (k ∷ ys) h all = (ground (arith, all.0), All-le y z ys h all.1)

      choose :
          (y : S) (b : Bool)
          → by_version snap x y ≡ b
          → All (λ k. by_version snap k y ≡ true) xs
          → ((i : ℕ) × (get_elem? xs i ≡ some y))
          → IsGreatest (x ∷ xs) (some (if b then y else x))
      choose y true h all (i, e) = ((h, all), (suc i, e))
      choose y false h all (i, e) = ((ground arith, All-le y x xs (ground arith) all), (0, refl))

      with_first : (o : Option S) → IsGreatest xs o → IsGreatest (x ∷ xs) (some (greater snap x o))
      with_first none g =
          ((ground arith, subst (All (λ k. by_version snap k x ≡ true)) (sym g) tt), (0, refl))
      with_first (some y) g = choose y (by_version snap x y) refl g.0 g.1

  -- The snapshot at a version: there is none exactly where no snapshot of the aggregate has a version
  -- up to it, and otherwise it is one of those, with no later version among them.
  pub load_snapshot_at_version_lem :
      (a : EntityId) (v : ℤ) (s : InMemorySnapshotStore S)
      → IsGreatest
          (filter (λ x. leb_ℤ (snap.version x) v) (kept a s))
          (load_snapshot_at_version snap a v s)
  unfolding load_snapshot_at_version
  load_snapshot_at_version_lem a v s =
      max_by_version-IsGreatest (filter (λ x. leb_ℤ (snap.version x) v) (kept a s))

  cleaned-drop :
      (keep_count : ℕ) (xs : List S)
      → keep_count < length xs
      → cleaned snap keep_count xs ≡ drop (length xs - keep_count) (sort_by (by_version snap) xs)
  unfolding cleaned
  cleaned-drop keep_count xs more = ground arith

  kept_found :
      (o : Option (List S)) (a : EntityId) (keep_count : ℕ) (s : InMemorySnapshotStore S)
      → keep_count < length (unwrap_or [] o)
      → unwrap_or [] (get a (cleanup_found snap o a keep_count s).snapshots)
        ≡ drop (length (unwrap_or [] o) - keep_count) (sort_by (by_version snap) (unwrap_or [] o))
  unfolding cleanup_found
  kept_found none a keep_count s more = ground arith
  kept_found (some xs) a keep_count s more =
      ap (unwrap_or []) found ∙ cleaned-drop keep_count xs more
    where
      found :
          get a (insert a (cleaned snap keep_count xs) s.snapshots)
          ≡ some (cleaned snap keep_count xs)
      found =
          ground (arith, nat_eq_iff a a, get-insert a a (cleaned snap keep_count xs) s.snapshots)

  kept_cleaned :
      (a : EntityId) (keep_count : ℕ) (s : InMemorySnapshotStore S)
      → keep_count < length (kept a s)
      → kept a (cleanup_snapshots snap a keep_count s)
        ≡ drop (length (kept a s) - keep_count) (sort_by (by_version snap) (kept a s))
  unfolding kept cleanup_snapshots
  kept_cleaned a keep_count s more = kept_found (get a s.snapshots) a keep_count s more

  -- Where an aggregate has more snapshots than are to be kept, a cleanup keeps so many, in order of
  -- their versions; together with those that go they are all that there were, and none that goes has
  -- a later version than one that is kept.
  pub cleanup_snapshots_lem :
      (a : EntityId) (keep_count : ℕ) (s : InMemorySnapshotStore S)
      → keep_count < length (kept a s)
      → let rest = kept a (cleanup_snapshots snap a keep_count s) in
        let gone = take (length (kept a s) - keep_count) (sort_by (by_version snap) (kept a s)) in
        (length rest ≡ keep_count)
        × Perm (gone ++ rest) (kept a s)
        × IsOrderedBy (by_version snap) rest
        × All (λ x. All (λ y. by_version snap x y ≡ true) rest) gone
  cleanup_snapshots_lem a keep_count s more =
      let xs = kept a s in
      let n = length xs - keep_count in
      let le = by_version snap in
      let split =
        split-IsOrderedBy le n (sort_by le xs) (sort_by-IsOrderedBy by_version-IsTotal xs) in
      subst
        (λ rest.
          (length rest ≡ keep_count)
          × Perm (take n (sort_by le xs) ++ rest) xs
          × IsOrderedBy le rest
          × All (λ x. All (λ y. le x y ≡ true) rest) (take n (sort_by le xs)))
        (sym (kept_cleaned a keep_count s more))
        (
          omega (arith, length-drop n (sort_by le xs), length-sort_by le xs),
          split-Perm le n xs,
          split.1,
          split.2,
        )

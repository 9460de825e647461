-- ===== src/Realtime/Presence/Snapshot.antt =====
-- The membership snapshot that is sent to clients (crates/atomo_realtime/src/presence.rs).
use atomo.Prelude.{
  String, Bool, false, ◌||◌, List, [], ◌∷◌, ◌≡◌, refl, arith, ◌==◌, contains, eq_iff, string_key,
}
use atomo.Prelude.Sorting.{insert_by, sort_by, IsTotal, IsOrderedBy, sort_by-IsOrderedBy}
use atomo.Prelude.Map.{get, values}
use atomo.Realtime.Presence.{Presence, or_empty, distinct, snapshot}

contains-insert_by :
    (le : String → String → Bool) (x : String) (ys : List String) (a : String)
    → contains (insert_by le x ys) a ≡ (x == a || contains ys a)
unfolding insert_by
contains-insert_by le x [] a = refl
contains-insert_by le x (y ∷ ys) a = ground (arith, contains-insert_by le x ys a)

contains-sort_by :
    (le : String → String → Bool) (xs : List String) (a : String)
    → contains (sort_by le xs) a ≡ contains xs a
unfolding sort_by
contains-sort_by le [] a = refl
contains-sort_by le (x ∷ xs) a =
    ground (arith, contains-insert_by le x (sort_by le xs) a, contains-sort_by le xs a)

contains-distinct : (xs : List String) (a : String) → contains (distinct xs) a ≡ contains xs a
unfolding distinct
contains-distinct [] a = refl
contains-distinct (x ∷ xs) a =
    ground (arith, eq_iff x a, contains-distinct xs a, contains-distinct xs x)

-- No text stands twice.
abbrev pub IsDistinct : List String → Type 0
IsDistinct [] = Unit {0}
IsDistinct (x ∷ xs) = (contains xs x ≡ false) × IsDistinct xs

distinct-IsDistinct : (xs : List String) → IsDistinct (distinct xs)
unfolding distinct
distinct-IsDistinct [] = tt
distinct-IsDistinct (x ∷ xs) = ground (arith, distinct-IsDistinct xs)

insert_by-IsDistinct :
    (le : String → String → Bool) (x : String) (ys : List String)
    → contains ys x ≡ false
    → IsDistinct ys
    → IsDistinct (insert_by le x ys)
unfolding insert_by
insert_by-IsDistinct le x [] h d = (refl, tt)
insert_by-IsDistinct le x (y ∷ ys) h d =
    ground
      (arith, eq_iff x y, eq_iff y x, insert_by-IsDistinct le x ys, contains-insert_by le x ys y)

sort_by-IsDistinct :
    (le : String → String → Bool) (xs : List String) → IsDistinct xs → IsDistinct (sort_by le xs)
unfolding sort_by
sort_by-IsDistinct le [] d = tt
sort_by-IsDistinct le (x ∷ xs) d =
    insert_by-IsDistinct le x (sort_by le xs) (ground (arith, contains-sort_by le xs x))
      (sort_by-IsDistinct le xs d.1)

module _ {le : String → String → Bool} (o : IsTotal le) where
  -- If the order on texts is total and transitive, a snapshot is sorted, names nobody twice, and
  -- names exactly the principals of the channel.
  pub snapshot_lem :
      (ch : String) (p : Presence)
      → IsOrderedBy le (snapshot le ch p)
        × IsDistinct (snapshot le ch p)
        × ((who : String)
            → contains (snapshot le ch p) who
              ≡ contains (values (or_empty (get ch p.channels))) who)
  unfolding snapshot
  snapshot_lem ch p =
      let ms : List String = values (or_empty (get ch p.channels)) in
      (
        sort_by-IsOrderedBy o (distinct ms),
        sort_by-IsDistinct le (distinct ms) (distinct-IsDistinct ms),
        λ who. ground (arith, contains-sort_by le (distinct ms) who, contains-distinct ms who),
      )

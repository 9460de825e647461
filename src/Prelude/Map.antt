-- ===== src/Prelude/Map.antt =====
-- `HashMap` as an association list and `HashSet` as a list. The order of the list stands for the
-- iteration order, which Rust leaves open: the theorems are about states in any order.
pub mod Distinct
use Prim.Native.Nat.{suc, ◌≤◌, ◌<◌}
use mathlib.Core.Path.{◌≡◌, refl}
use mathlib.Core.Logic.{◌⊎◌}
use mathlib.Core.Bool.{true, false, not}
use mathlib.Core.List.{List, [], ◌∷◌}
use mathlib.Core.Option.{Option, none, some}
use native.Mathlib.Omega.{arith}
use atomo.Prelude.Tests.{Key, ◌==◌, if◌then◌else◌, is_some}
use atomo.Prelude.Lists.{length, contains, filter}

abbrev pub Map {ℓ κ} : Type ℓ → Type κ → Type (ℓ ⊔ κ)
Map K V = List (K × V)

module _ {ℓ κ} {K : Type ℓ} {V : Type κ} where
  unfoldable pub keys : Map K V → List K
  keys [] = []
  keys ((k, v) ∷ m) = k ∷ keys m

  unfoldable pub values : Map K V → List V
  values [] = []
  values ((k, v) ∷ m) = v ∷ values m

module _ {ℓ κ} {K : Type ℓ} {V : Type κ} ⦃e : Key K⦄ where
  unfoldable pub get : K → Map K V → Option V
  get k [] = none
  get k ((j, v) ∷ m) = if j == k then some v else get k m

  unfoldable pub insert : K → V → Map K V → Map K V
  insert k v [] = (k, v) ∷ []
  insert k v ((j, w) ∷ m) = if j == k then (k, v) ∷ m else (j, w) ∷ insert k v m

  unfoldable pub remove : K → Map K V → Map K V
  remove k [] = []
  remove k ((j, w) ∷ m) = let rest = remove k m in if j == k then rest else (j, w) ∷ rest

  pub get-insert :
      (k j : K) (v : V) (m : Map K V) → get j (insert k v m) ≡ (if k == j then some v else get j m)
  unfolding get insert
  get-insert k j v [] = refl
  get-insert k j v ((i, w) ∷ m) =
      ground (arith, e.eqb_iff k j, e.eqb_iff i k, e.eqb_iff i j, get-insert k j v m)

  pub get-remove : (k j : K) (m : Map K V) → get j (remove k m) ≡ (if k == j then none else get j m)
  unfolding get remove
  get-remove k j [] = ground arith
  get-remove k j ((i, w) ∷ m) =
      ground (arith, e.eqb_iff k j, e.eqb_iff i k, e.eqb_iff i j, get-remove k j m)

  -- What is found after an insert was inserted, or was there.
  pub get-insert_cases :
      (k j : K) (v : V) (m : Map K V) {u : V}
      → get j (insert k v m) ≡ some u
      → (v ≡ u) ⊎ (get j m ≡ some u)
  get-insert_cases k j v m {u} h = ground (arith, get-insert k j v m)

  -- What is found after a removal was there.
  pub get_of_remove :
      (k j : K) (m : Map K V) {u : V} → get j (remove k m) ≡ some u → get j m ≡ some u
  get_of_remove k j m {u} h = ground (arith, get-remove k j m)

  pub length-remove-le : (k : K) (m : Map K V) → length (remove k m) ≤ length m
  unfolding remove
  length-remove-le k [] = omega arith
  length-remove-le k ((i, w) ∷ m) = ground (arith, length-remove-le k m)

  -- Removing a key that is there makes the map smaller.
  pub length-remove-lt :
      (k : K) (m : Map K V) {v : V} → get k m ≡ some v → length (remove k m) < length m
  unfolding get remove
  length-remove-lt k [] h = ground arith
  length-remove-lt k ((i, w) ∷ m) {v} h =
      ground (arith, length-remove-lt k m {v = v}, length-remove-le k m)

  -- An insert adds at most one entry, and none where the key is there.
  pub length-insert-le : (k : K) (v : V) (m : Map K V) → length (insert k v m) ≤ suc (length m)
  unfolding insert
  length-insert-le k v [] = omega arith
  length-insert-le k v ((i, w) ∷ m) = ground (arith, length-insert-le k v m)

  pub length-insert_there :
      (k : K) (v : V) (m : Map K V) {u : V} → get k m ≡ some u → length (insert k v m) ≡ length m
  unfolding get insert
  length-insert_there k v [] h = ground arith
  length-insert_there k v ((i, w) ∷ m) {u} h = ground (arith, length-insert_there k v m {u = u})

  pub contains-keys : (k : K) (m : Map K V) → contains (keys m) k ≡ is_some (get k m)
  unfolding keys get
  contains-keys k [] = refl
  contains-keys k ((i, w) ∷ m) = ground (arith, contains-keys k m)

module _ {ℓ} {A : Type ℓ} ⦃e : Key A⦄ where
  -- `HashSet::insert` and `HashSet::remove`.
  unfoldable pub set_insert : A → List A → List A
  set_insert a xs = if contains xs a then xs else a ∷ xs

  unfoldable pub set_remove : A → List A → List A
  set_remove a xs = filter (λ x. not (x == a)) xs

  pub contains-set_insert :
      (a b : A) (xs : List A)
      → contains (set_insert a xs) b ≡ (if a == b then true else contains xs b)
  unfolding set_insert
  contains-set_insert a b xs = ground (arith, e.eqb_iff a b)

  pub contains-set_remove :
      (a b : A) (xs : List A)
      → contains (set_remove a xs) b ≡ (if a == b then false else contains xs b)
  unfolding set_remove
  contains-set_remove a b [] = ground arith
  contains-set_remove a b (x ∷ xs) =
      ground (arith, e.eqb_iff a b, e.eqb_iff x a, e.eqb_iff x b, contains-set_remove a b xs)

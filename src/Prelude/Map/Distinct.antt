-- ===== src/Prelude/Map/Distinct.antt =====
-- Maps in which no key occurs twice, as in a `HashMap`.
use Prim.Native.Nat.{ℕ, suc}
use mathlib.Core.Path.{◌≡◌, refl}
use mathlib.Core.Logic.{inl, inr}
use mathlib.Core.List.{[], ◌∷◌}
use mathlib.Core.Option.{none, some}
use native.Mathlib.Omega.{arith}
use atomo.Prelude.Tests.{Bool-cases, Key, ◌==◌}
use atomo.Prelude.Lists.{length, All, get_elem?}
use atomo.Prelude.Map.{Map, values, get, insert, remove, get-insert, get-remove}

module _ {ℓ κ} {K : Type ℓ} {V : Type κ} ⦃e : Key K⦄ where
  unfoldable pub IsDistinct : Map K V → Type κ
  unfolding get
  IsDistinct [] = Unit
  IsDistinct ((k, v) ∷ m) = (get k m ≡ none) × IsDistinct m

  pub remove-IsDistinct : (k : K) (m : Map K V) → IsDistinct m → IsDistinct (remove k m)
  unfolding IsDistinct remove
  remove-IsDistinct k [] h = h
  remove-IsDistinct k ((j, v) ∷ m) h = ground (arith, remove-IsDistinct k m h.1, get-remove k j m)

  pub insert-IsDistinct : (k : K) (v : V) (m : Map K V) → IsDistinct m → IsDistinct (insert k v m)
  unfolding IsDistinct insert get
  insert-IsDistinct k v [] h = (refl, tt)
  insert-IsDistinct k v ((j, w) ∷ m) h =
      ground (arith, e.eqb_iff j k, e.eqb_iff k j, insert-IsDistinct k v m h.1, get-insert k j v m)

  -- Removing a key that is not there does nothing.
  pub remove_absent : (k : K) (m : Map K V) → get k m ≡ none → remove k m ≡ m
  unfolding get remove
  remove_absent k [] h = refl
  remove_absent k ((j, w) ∷ m) h = ground (arith, remove_absent k m)

  pub length-insert_absent :
      (k : K) (v : V) (m : Map K V) → get k m ≡ none → length (insert k v m) ≡ suc (length m)
  unfolding get insert
  length-insert_absent k v [] h = refl
  length-insert_absent k v ((j, w) ∷ m) h = ground (arith, length-insert_absent k v m)

  -- What holds of all that is found holds of the values.
  pub All-values {μ} :
      (P : V → Type μ) (m : Map K V)
      → IsDistinct m
      → ((k : K) (v : V) → get k m ≡ some v → P v)
      → All P (values m)
  unfolding values get IsDistinct
  All-values P [] d h = tt
  All-values P ((j, w) ∷ m) d h = (
    h j w (ground (arith, e.eqb_iff j j)),
    All-values P m d.1 (λ k v there. h k v (ground (arith, there, d.0, e.eqb_iff j k))),
  )

  pub get_elem?-values :
      (k : K) (m : Map K V) (v : V) → get k m ≡ some v → (i : ℕ) × (get_elem? (values m) i ≡ some v)
  unfolding values get
  get_elem?-values k [] v h = ground (arith, h)
  get_elem?-values k ((j, w) ∷ m) v h = elim (Bool-cases (j == k)) [
    | inl here ↦ (0, ground (arith, here, h))
    | inr other ↦
        let rest = get_elem?-values k m v (ground (arith, other, h)) in (suc rest.0, rest.1)
  ]

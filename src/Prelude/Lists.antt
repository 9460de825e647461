-- ===== src/Prelude/Lists.antt =====
-- Lists measured and indexed by native numbers, membership tests, and predicates on lists.
use Prim.Native.Nat.{ℕ, zero, suc, ◌+◌, ◌-◌, min}
use mathlib.Core.Path.{◌≡◌, refl, subst}
use mathlib.Core.Logic.{inl, inr}
use mathlib.Core.Bool.{Bool, true, false, ◌||◌}
use mathlib.Core.List.{List, [], ◌∷◌, ◌++◌}
use mathlib.Core.Option.{Option, none, some, some-injective}
use native.Mathlib.Omega.{arith}
use atomo.Prelude.Tests.{Bool-cases, Key, ◌==◌, if◌then◌else◌}

module _ {ℓ} {A : Type ℓ} where
  abbrev pub length : List A → ℕ
  length [] = 0
  length (x ∷ xs) = suc (length xs)

  abbrev pub get_elem? : List A → ℕ → Option A
  get_elem? [] i = none
  get_elem? (x ∷ xs) zero = some x
  get_elem? (x ∷ xs) (suc i) = get_elem? xs i

  pub length-append : (xs ys : List A) → length (xs ++ ys) ≡ length xs + length ys
  length-append [] ys = omega arith
  length-append (x ∷ xs) ys = omega (arith, length-append xs ys)

  -- `Iterator::filter`, which also models `Vec::retain`.
  abbrev pub filter : (A → Bool) → List A → List A
  filter p [] = []
  filter p (x ∷ xs) = let rest = filter p xs in if p x then x ∷ rest else rest

  -- `Iterator::take`.
  abbrev pub take : ℕ → List A → List A
  take zero xs = []
  take (suc n) [] = []
  take (suc n) (x ∷ xs) = x ∷ take n xs

  abbrev pub drop : ℕ → List A → List A
  drop zero xs = xs
  drop (suc n) [] = []
  drop (suc n) (x ∷ xs) = drop n xs

module _ {ℓ} {A : Type ℓ} where
  pub length-take : (n : ℕ) (xs : List A) → length (take n xs) ≡ min n (length xs)
  length-take zero xs = omega arith
  length-take (suc n) [] = omega arith
  length-take (suc n) (x ∷ xs) = omega (arith, length-take n xs)

  pub length-drop : (n : ℕ) (xs : List A) → length (drop n xs) ≡ length xs - n
  length-drop zero xs = omega arith
  length-drop (suc n) [] = omega arith
  length-drop (suc n) (x ∷ xs) = omega (arith, length-drop n xs)

-- A predicate by recursion computes to tuples.
abbrev pub All {ℓ κ} : {A : Type ℓ} → (A → Type κ) → List A → Type κ
All P [] = Unit
All P (x ∷ xs) = P x × All P xs

module _ {ℓ κ} {A : Type ℓ} where
  pub All-get_elem? :
      (P : A → Type κ) (xs : List A) (i : ℕ) (x : A) → All P xs → get_elem? xs i ≡ some x → P x
  All-get_elem? P [] i x all h = ground (arith, h)
  All-get_elem? P (y ∷ xs) zero x all h = subst P (some-injective _ _ h) all.0
  All-get_elem? P (y ∷ xs) (suc i) x all h = All-get_elem? P xs i x all.1 h

  pub All-mono : (P Q : A → Type κ) → ((a : A) → P a → Q a) → (xs : List A) → All P xs → All Q xs
  All-mono P Q f [] h = tt
  All-mono P Q f (x ∷ xs) h = (f x h.0, All-mono P Q f xs h.1)

  -- What is left by a filter passes its test, and what passes is left.
  pub All-filter :
      (P : A → Type κ) (p : A → Bool) (xs : List A)
      → All P xs
      → All (λ x. P x × (p x ≡ true)) (filter p xs)
  All-filter P p [] h = tt
  All-filter P p (x ∷ xs) h = elim (Bool-cases (p x)) [
    | inl yes_x ↦ rw yes_x ((h.0, yes_x), All-filter P p xs h.1)
    | inr no_x ↦ rw no_x (All-filter P p xs h.1)
  ]

module _ {ℓ} {A : Type ℓ} where
  pub get_elem?-filter :
      (p : A → Bool) (xs : List A) (i : ℕ) (x : A)
      → get_elem? xs i ≡ some x
      → p x ≡ true
      → (j : ℕ) × (get_elem? (filter p xs) j ≡ some x)
  get_elem?-filter p [] i x h t = ground (arith, h)
  get_elem?-filter p (y ∷ xs) zero x h t = (0, ground (arith, h, t))
  get_elem?-filter p (y ∷ xs) (suc i) x h t =
      let rest = get_elem?-filter p xs i x h t in
      elim (Bool-cases (p y)) [
        | inl kept ↦ (suc rest.0, rw kept rest.1)
        | inr left_out ↦ (rest.0, rw left_out rest.1)
      ]

module _ {ℓ} {A : Type ℓ} ⦃e : Key A⦄ where
  -- `Vec::contains`, `HashSet::contains`.
  abbrev pub contains : List A → A → Bool
  contains [] a = false
  contains (x ∷ xs) a = x == a || contains xs a

  pub contains-filter :
      (p : A → Bool) (xs : List A) (a : A)
      → contains (filter p xs) a ≡ (if p a then contains xs a else false)
  contains-filter p [] a = ground arith
  contains-filter p (x ∷ xs) a = ground (arith, e.eqb_iff x a, contains-filter p xs a)

  pub contains-append :
      (xs ys : List A) (a : A) → contains (xs ++ ys) a ≡ (contains xs a || contains ys a)
  contains-append [] ys a = refl
  contains-append (x ∷ xs) ys a = ground (arith, contains-append xs ys a)

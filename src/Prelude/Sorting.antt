-- ===== src/Prelude/Sorting.antt =====
-- Stable sorting by a test, as `sort_by` does: what comes out is ordered, is a permutation, and splits
-- into what comes first and what comes after.
use Prim.Native.Nat.{ℕ, zero, suc}
use mathlib.Core.Path.{◌≡◌, refl, sym, ap, ◌∙◌, subst}
use mathlib.Core.Bool.{Bool, true, false}
use mathlib.Core.List.{List, [], ◌∷◌, ◌++◌, Perm}
use mathlib.Core.List.Perm
use native.Mathlib.Omega.{arith}
use atomo.Prelude.Tests.{if◌then◌else◌}
use atomo.Prelude.Lists.{All, length, take, drop}

module _ {ℓ} {A : Type ℓ} where
  unfoldable pub insert_by : (A → A → Bool) → A → List A → List A
  insert_by le a [] = a ∷ []
  insert_by le a (b ∷ bs) = if le a b then a ∷ b ∷ bs else b ∷ insert_by le a bs

  unfoldable pub sort_by : (A → A → Bool) → List A → List A
  unfolding insert_by
  sort_by le [] = []
  sort_by le (a ∷ bs) = insert_by le a (sort_by le bs)

  take-drop : (n : ℕ) (xs : List A) → take n xs ++ drop n xs ≡ xs
  take-drop zero xs = refl
  take-drop (suc n) [] = refl
  take-drop (suc n) (x ∷ xs) = ap (λ l. x ∷ l) (take-drop n xs)

  insert_by-Perm : (le : A → A → Bool) (a : A) (bs : List A) → Perm (insert_by le a bs) (a ∷ bs)
  unfolding insert_by
  insert_by-Perm le a [] = Perm.refl (a ∷ [])
  insert_by-Perm le a (b ∷ bs) = place (le a b) (insert_by-Perm le a bs)
    where
      place :
          (t : Bool)
          → Perm (insert_by le a bs) (a ∷ bs)
          → Perm (if t then a ∷ b ∷ bs else b ∷ insert_by le a bs) (a ∷ b ∷ bs)
      place true rest = Perm.refl (a ∷ b ∷ bs)
      place false rest = Perm.trans (Perm.cons b rest) (Perm.swap a b bs)

  pub sort_by-Perm : (le : A → A → Bool) (xs : List A) → Perm (sort_by le xs) xs
  unfolding sort_by
  sort_by-Perm le [] = Perm.refl []
  sort_by-Perm le (x ∷ xs) =
      Perm.trans (insert_by-Perm le x (sort_by le xs)) (Perm.cons x (sort_by-Perm le xs))

  length-insert_by :
      (le : A → A → Bool) (a : A) (bs : List A) → length (insert_by le a bs) ≡ suc (length bs)
  unfolding insert_by
  length-insert_by le a [] = refl
  length-insert_by le a (b ∷ bs) = ground (arith, length-insert_by le a bs)

  pub length-sort_by : (le : A → A → Bool) (xs : List A) → length (sort_by le xs) ≡ length xs
  unfolding sort_by
  length-sort_by le [] = refl
  length-sort_by le (x ∷ xs) = length-insert_by le x (sort_by le xs) ∙ ap suc (length-sort_by le xs)

  -- What is taken and what is dropped of a sorted list are all of the list.
  pub split-Perm :
      (le : A → A → Bool) (n : ℕ) (xs : List A)
      → Perm (take n (sort_by le xs) ++ drop n (sort_by le xs)) xs
  split-Perm le n xs =
      subst (λ l. Perm l xs) (sym (take-drop n (sort_by le xs))) (sort_by-Perm le xs)

-- Each element comes before all that follow it.
abbrev pub IsOrderedBy {ℓ} : {A : Type ℓ} → (A → A → Bool) → List A → Type 0
IsOrderedBy le [] = Unit
IsOrderedBy le (x ∷ xs) = All (λ y. le x y ≡ true) xs × IsOrderedBy le xs

module _ {ℓ} {A : Type ℓ} where
  pub record IsTotal (le : A → A → Bool) : Type ℓ where
    pub total : (a b : A) → le a b ≡ false → le b a ≡ true
    pub trans : (a b c : A) → le a b ≡ true → le b c ≡ true → le a c ≡ true

module _ {ℓ} {A : Type ℓ} {le : A → A → Bool} (o : IsTotal le) where
  All-insert_by :
      (b a : A) (bs : List A)
      → le b a ≡ true
      → All (λ k. le b k ≡ true) bs
      → All (λ k. le b k ≡ true) (insert_by le a bs)
  unfolding insert_by
  All-insert_by b a [] h all = (h, tt)
  All-insert_by b a (c ∷ bs) h all = ground (arith, All-insert_by b a bs h all.1)

  All-after :
      (a b : A) (bs : List A)
      → le a b ≡ true
      → All (λ k. le b k ≡ true) bs
      → All (λ k. le a k ≡ true) bs
  All-after a b [] h all = tt
  All-after a b (c ∷ bs) h all = (o.trans a b c h all.0, All-after a b bs h all.1)

  insert_by-IsOrderedBy :
      (a : A) (bs : List A) → IsOrderedBy le bs → IsOrderedBy le (insert_by le a bs)
  unfolding insert_by
  insert_by-IsOrderedBy a [] s = (tt, tt)
  insert_by-IsOrderedBy a (b ∷ bs) s = place (le a b) refl (insert_by-IsOrderedBy a bs s.1)
    where
      place :
          (t : Bool)
          → le a b ≡ t
          → IsOrderedBy le (insert_by le a bs)
          → IsOrderedBy le (if t then a ∷ b ∷ bs else b ∷ insert_by le a bs)
      place true h rest = ((h, All-after a b bs h s.0), s)
      place false h rest = (All-insert_by b a bs (o.total a b h) s.0, rest)

  pub sort_by-IsOrderedBy : (xs : List A) → IsOrderedBy le (sort_by le xs)
  unfolding sort_by
  sort_by-IsOrderedBy [] = tt
  sort_by-IsOrderedBy (x ∷ xs) = insert_by-IsOrderedBy x (sort_by le xs) (sort_by-IsOrderedBy xs)

module _ {ℓ} {A : Type ℓ} (le : A → A → Bool) where
  All-take :
      (a : A) (n : ℕ) (xs : List A)
      → All (λ k. le a k ≡ true) xs
      → All (λ k. le a k ≡ true) (take n xs)
  All-take a zero xs all = tt
  All-take a (suc n) [] all = tt
  All-take a (suc n) (x ∷ xs) all = (all.0, All-take a n xs all.1)

  All-drop :
      (a : A) (n : ℕ) (xs : List A)
      → All (λ k. le a k ≡ true) xs
      → All (λ k. le a k ≡ true) (drop n xs)
  All-drop a zero xs all = all
  All-drop a (suc n) [] all = tt
  All-drop a (suc n) (x ∷ xs) all = All-drop a n xs all.1

  -- Of an ordered list, what is taken is ordered, what is dropped is, and the one comes before the
  -- other.
  pub split-IsOrderedBy :
      (n : ℕ) (xs : List A)
      → IsOrderedBy le xs
      → IsOrderedBy le (take n xs)
        × IsOrderedBy le (drop n xs)
        × All (λ a. All (λ b. le a b ≡ true) (drop n xs)) (take n xs)
  split-IsOrderedBy zero xs s = (tt, s, tt)
  split-IsOrderedBy (suc n) [] s = (tt, tt, tt)
  split-IsOrderedBy (suc n) (x ∷ xs) s =
      let rest = split-IsOrderedBy n xs s.1 in
      ((All-take x n xs s.0, rest.0), rest.1, (All-drop x n xs s.0, rest.2))

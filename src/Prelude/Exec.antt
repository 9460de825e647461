-- ===== src/Prelude/Exec.antt =====
-- Methods on mutable state that may fail to end: a state monad whose runs finish, panic, or use up
-- the fuel that stands for the depth of nested calls.
use mathlib.Core.List.{List, [], ◌∷◌}

pub data Run {ℓ} (A : Type ℓ) : Type ℓ where
  done : A → Run A
  panic : Run A
  out_of_fuel : Run A

abbrev pub Exec {ℓ} : Type ℓ → Type ℓ → Type ℓ
Exec S A = S → Run (A × S)

module _ {ℓ} {S A B : Type ℓ} where
  abbrev pub continue : Run (A × S) → (A → Exec S B) → Run (B × S)
  continue (done (a, s)) f = f a s
  continue panic f = panic
  continue out_of_fuel f = out_of_fuel

  infixl 10 ◌>>=◌ ◌>>◌
  abbrev pub ◌>>=◌ : Exec S A → (A → Exec S B) → Exec S B
  ◌>>=◌ m f s = continue (m s) f

  abbrev pub ◌>>◌ : Exec S A → Exec S B → Exec S B
  ◌>>◌ m k s = continue (m s) (λ _. k)

module _ {S A : Type 0} where
  abbrev pub pure : A → Exec S A
  pure a s = done (a, s)

module _ {S : Type 0} where
  abbrev pub modify : (S → S) → Exec S (Unit {0})
  modify f s = done (tt, f s)

module _ {S A : Type 0} where
  -- `for x in xs { f(x) }`
  unfoldable pub for_each : List A → (A → Exec S (Unit {0})) → Exec S (Unit {0})
  for_each [] f s = done (tt, s)
  for_each (x ∷ xs) f s = continue (f x s) (λ _ s'. for_each xs f s')

  -- The run finishes, with a result and a state for which `Q` holds: total correctness.
  abbrev pub Ensures : (A → S → Type 0) → Run (A × S) → Type 0
  Ensures Q (done (a, s)) = Q a s
  Ensures Q panic = ⊥
  Ensures Q out_of_fuel = ⊥

  pub Ensures-mono :
      (Q R : A → S → Type 0) (r : Run (A × S))
      → ((a : A) (s : S) → Q a s → R a s)
      → Ensures Q r
      → Ensures R r
  Ensures-mono Q R (done (a, s)) f h = f a s h
  Ensures-mono Q R panic f h = h
  Ensures-mono Q R out_of_fuel f h = h

module _ {S A B : Type 0} where
  pub Ensures-continue :
      (Q : A → S → Type 0) (R : B → S → Type 0) (r : Run (A × S)) (f : A → Exec S B)
      → Ensures Q r
      → ((a : A) (s : S) → Q a s → Ensures R (f a s))
      → Ensures R (continue r f)
  Ensures-continue Q R (done (a, s)) f h k = k a s h
  Ensures-continue Q R panic f h k = h
  Ensures-continue Q R out_of_fuel f h k = h

module _ {S A : Type 0} (I : List A → S → Type 0) (f : A → Exec S (Unit {0})) where
  -- A loop keeps an invariant over the items that are left.
  pub Ensures-for_each :
      ((x : A) (xs : List A) (s : S) → I (x ∷ xs) s → Ensures (λ _ s'. I xs s') (f x s))
      → (xs : List A) (s : S) → I xs s
      → Ensures (λ _ s'. I [] s') (for_each xs f s)
  unfolding for_each
  Ensures-for_each step [] s h = h
  Ensures-for_each step (x ∷ xs) s h =
      Ensures-continue (λ _ s'. I xs s') (λ _ s'. I [] s') (f x s) _ (step x xs s h)
        (λ _ s' h'. Ensures-for_each step xs s' h')

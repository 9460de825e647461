-- ===== src/Workflows/Retrying.antt =====
-- Failures: what a retry does, what comes after a step that stops, and workflows that always go on
-- (crates/atomo/src/workflow.rs).
use atomo.Prelude.{
  String, All-get_elem?, some-injective, ℕ, zero, suc, ◌≤◌, ◌<◌, Bool, true, false, some, List, [],
  ◌∷◌, ◌++◌, length, All, ◌≡◌, refl, sym, ◌∙◌, arith, ◌⊎◌, inl, inr, Bool-cases, subst,
}
use atomo.Workflows.{
  Workflow, Runtime, Result, ok, err, Context, WorkflowStep, continue, WorkflowExecution, completed,
  failed, WorkflowEngine,
}
use atomo.Workflows.Outcomes.{IsFinal, FailedAt, Ended, execute_ends}
use atomo.Workflows.Engine.{
  get, execute, begin, run_step, run_steps, retry_step, Next, proceed, halt, follow, Act,
}

abbrev pub is_ok : {A : Type 0} → Result A → Bool
is_ok (ok a) = true
is_ok (err e) = false

module _ (R : Runtime) where
  -- The context and the world after a number of attempts in a row.
  abbrev pub attempts : Act R → ℕ → Context R → R.World → Context R × R.World
  attempts act zero context w = (context, w)
  attempts act (suc n) context w = let o = act context w in attempts act n o.1 o.2

  -- The result of an attempt after a number of others.
  abbrev pub attempt_is_ok : Act R → ℕ → Context R → R.World → Bool
  attempt_is_ok act k context w = let s = attempts act k context w in is_ok (act s.0 s.1).0

  -- The first success is the attempt `k` of `n`.
  abbrev pub SucceedsAt : Act R → ℕ → ℕ → Context R → R.World → Type 0
  SucceedsAt act n k context w =
      (k < n)
      × ((j : ℕ) → j < k → attempt_is_ok act j context w ≡ false)
      × (attempt_is_ok act k context w ≡ true)

  abbrev pub FailsAll : Act R → ℕ → Context R → R.World → Type 0
  FailsAll act n context w = (j : ℕ) → j < n → attempt_is_ok act j context w ≡ false

  retry_ok :
      (act : Act R) (n : ℕ) (context : Context R) (w : R.World)
      → is_ok (act context w).0 ≡ true
      → retry_step R act (suc n) context w ≡ (true, (act context w).1, (act context w).2)
  unfolding retry_step
  retry_ok act n context w good = ground (arith, good)

  retry_err :
      (act : Act R) (n : ℕ) (context : Context R) (w : R.World)
      → is_ok (act context w).0 ≡ false
      → retry_step R act (suc n) context w ≡ retry_step R act n (act context w).1 (act context w).2
  unfolding retry_step
  retry_err act n context w bad = ground (arith, bad)

  shifted :
      (act : Act R) (n : ℕ) (context : Context R) (w : R.World)
      → is_ok (act context w).0 ≡ false
      → ((j : ℕ) → suc j < n → attempt_is_ok act j (act context w).1 (act context w).2 ≡ false)
      → FailsAll act n context w
  shifted act n context w bad rest zero h = bad
  shifted act n context w bad rest (suc j) h = rest j h

  -- A retry succeeds with the first of its attempts that does, and leaves what that attempt leaves; or
  -- all of its attempts fail, it was made as often as it may, and leaves what the last one leaves.
  pub retry_step_lem :
      (act : Act R) (n : ℕ) (context : Context R) (w : R.World)
      → ((k : ℕ) × SucceedsAt act n k context w
          × (retry_step R act n context w
              ≡ (true, (attempts act (suc k) context w).0, (attempts act (suc k) context w).1)))
        ⊎ (FailsAll act n context w
            × (retry_step R act n context w
                ≡ (false, (attempts act n context w).0, (attempts act n context w).1)))
  unfolding retry_step
  retry_step_lem act zero context w = inr ((λ j h. absurd (omega (arith, h))), refl)
  retry_step_lem act (suc n) context w = elim (Bool-cases (is_ok (act context w).0)) [
    | inl good ↦
        inl (
          0,
          (omega arith, (λ j h. absurd (omega (arith, h))), good),
          retry_ok act n context w good,
        )
    | inr bad ↦ elim (retry_step_lem act n (act context w).1 (act context w).2) [
      | inl (k, (less, before, good), same) ↦ inl (
        suc k,
        (
          omega (arith, less),
          shifted act (suc k) context w bad (λ j h. before j (omega (arith, h))),
          good,
        ),
        retry_err act n context w bad ∙ same,
      )
      | inr (before, same) ↦ inr (
        shifted act (suc n) context w bad (λ j h. before j (omega (arith, h))),
        retry_err act n context w bad ∙ same,
      )
    ]
  ]

  -- The steps after one that ends the execution have no part in it.
  pub failed_is_final :
      (engine : WorkflowEngine R) (i : ℕ) (steps more : List (WorkflowStep R))
      (x : WorkflowExecution R) (w : R.World)
      → (run_steps R engine i steps x w).0.status ≡ failed
      → run_steps R engine i (steps ++ more) x w ≡ run_steps R engine i steps x w
  unfolding run_steps
  failed_is_final engine i [] more x w h = ground (arith, h)
  failed_is_final engine i (s ∷ steps) more x w h =
      next (run_step R engine i s x w) h
        (λ x' w' h'. failed_is_final engine (suc i) steps more x' w' h')
    where
      next :
          (n : Next R)
          → (follow R (λ x' w'. run_steps R engine (suc i) steps x' w') n).0.status ≡ failed
          → ((x' : WorkflowExecution R) (w' : R.World)
              → (run_steps R engine (suc i) steps x' w').0.status ≡ failed
              → run_steps R engine (suc i) (steps ++ more) x' w'
                ≡ run_steps R engine (suc i) steps x' w')
          → follow R (λ x' w'. run_steps R engine (suc i) (steps ++ more) x' w') n
            ≡ follow R (λ x' w'. run_steps R engine (suc i) steps x' w') n
      next (proceed x' w') h' rest = rest x' w' h'
      next (halt x' w') h' rest = refl

  never_final :
      (i : ℕ) (steps : List (WorkflowStep R)) (x : WorkflowExecution R)
      → All (λ s. s.on_failure ≡ continue) steps
      → FailedAt R i steps x
      → ⊥
  never_final i steps x all (bad, some_error, (k, s, at_k, found, final)) =
      subst IsFinal
        (All-get_elem? (λ (t : WorkflowStep R). t.on_failure ≡ continue) steps k s all found) final

  -- A workflow whose steps all continue on failure completes, whatever fails, with at most one error for
  -- each step.
  pub execute_completes :
      (name : String) (context : Context R) (engine : WorkflowEngine R) (w : R.World)
      (workflow : Workflow R)
      → get R name engine ≡ some workflow
      → All (λ s. s.on_failure ≡ continue) workflow.steps
      → (x : WorkflowExecution R) × ((execute R name context engine w).0 ≡ ok x)
        × (x.status ≡ completed)
        × (length x.errors ≤ length workflow.steps)
  execute_completes name context engine w workflow found all =
      elim (execute_ends R name context engine w) [
        | inl (unknown, same) ↦ ground (arith, found, unknown)
        | inr (workflow', x, found', result, ended) ↦ ends x result (
            subst (λ (v : Workflow R). Ended R 0 v.steps (begin R name context) x)
              (some-injective _ _ (sym found' ∙ found)) ended)
      ]
    where
      ends :
          (x : WorkflowExecution R)
          → (execute R name context engine w).0 ≡ ok x
          → Ended R 0 workflow.steps (begin R name context) x
          → (y : WorkflowExecution R) × ((execute R name context engine w).0 ≡ ok y)
            × (y.status ≡ completed)
            × (length y.errors ≤ length workflow.steps)
      ends x result (inl (done, few, last)) = (x, result, done, omega (arith, few))
      ends x result (inr bad) = absurd (never_final 0 workflow.steps x all bad)

-- ===== src/Workflows/Outcomes.antt =====
-- How executions of a workflow end (crates/atomo/src/workflow.rs).
use atomo.Prelude.{
  string_key, ℕ, suc, ◌+◌, ◌≤◌, ◌<◌, String, Bool, true, false, none, some, List, [], ◌∷◌, length,
  length-append, get_elem?, ◌≡◌, refl, sym, ap, arith, ◌⊎◌, inl, inr, Bool-cases, Option-cases,
  subst,
}
use atomo.Workflows.{
  Runtime, ok, err, Context, WorkflowStep, Workflow, FailurePolicy, stop, continue, retry,
  WorkflowExecution, completed, failed, WorkflowEngine,
}
use atomo.Workflows.Steps.{Outcome}
use atomo.Workflows.Engine.{
  get, holds, run_step, run_steps, retry_step, retried, on_failure, stepped, Next, proceed, halt,
  execute, begin, Act, follow,
}

-- A policy under which a failed step may end the execution.
abbrev pub IsFinal : FailurePolicy → Type 0
IsFinal stop = Unit
IsFinal continue = ⊥
IsFinal (retry n) = Unit

module _ (R : Runtime) where
  -- What a step leaves: it goes on with the status as it was, or it ends the execution as failed, with
  -- an error, under a policy that allows it; and it is the current one.
  abbrev After : ℕ → WorkflowStep R → WorkflowExecution R → Next R → Type 0
  After i s x (proceed x' w) =
      (x'.status ≡ x.status) × (x'.current_step ≡ i) × (length x'.errors ≤ suc (length x.errors))
  After i s x (halt x' w) =
      (x'.status ≡ failed) × (x'.current_step ≡ i) × (0 < length x'.errors) × IsFinal s.on_failure

  retried-After :
      (i n : ℕ) (s : WorkflowStep R) (x y : WorkflowExecution R) (r : Bool × Context R × R.World)
      → s.on_failure ≡ retry n
      → y.status ≡ x.status
      → y.current_step ≡ i
      → length y.errors ≡ suc (length x.errors)
      → After i s x (retried R y r)
  retried-After i n s x y (true, context, w) policy same now more = (same, now, omega (arith, more))
  retried-After i n s x y (false, context, w) policy same now more =
      (refl, now, omega (arith, more), subst IsFinal (sym policy) tt)

  on_failure-After :
      (i : ℕ) (s : WorkflowStep R) (act : Act R) (x y : WorkflowExecution R) (w : R.World)
      (policy : FailurePolicy)
      → s.on_failure ≡ policy
      → y.status ≡ x.status
      → y.current_step ≡ i
      → length y.errors ≡ suc (length x.errors)
      → After i s x (on_failure R act policy y w)
  on_failure-After i s act x y w stop e same now more =
      (refl, now, omega (arith, more), subst IsFinal (sym e) tt)
  on_failure-After i s act x y w continue e same now more = (same, now, omega (arith, more))
  on_failure-After i s act x y w (retry n) e same now more =
      retried-After i n s x y (retry_step R act n y.context w) e same now more

  stepped-After :
      (i : ℕ) (s : WorkflowStep R) (act : Act R) (x : WorkflowExecution R) (o : Outcome R)
      → After i s x (stepped R s act (record x { current_step = i }) o)
  stepped-After i s act x (ok u, context, w) = (refl, refl, omega arith)
  stepped-After i s act x (err e, context, w) =
      on_failure-After i s act x _ w s.on_failure refl refl refl
        (omega (arith, length-append x.errors (R.step_error s.name e ∷ [])))

  run_step-After :
      (engine : WorkflowEngine R) (i : ℕ) (s : WorkflowStep R) (x : WorkflowExecution R)
      (w : R.World)
      → After i s x (run_step R engine i s x w)
  unfolding run_step
  run_step-After engine i s x w = elim (Bool-cases (holds R s.condition x.context)) [
    | inr skip ↦ rw skip (refl, refl, omega arith)
    | inl run ↦ rw run (stepped-After i s _ x _)
  ]

  -- The execution ended at a step whose policy allows it, with an error.
  abbrev pub FailedAt : ℕ → List (WorkflowStep R) → WorkflowExecution R → Type 0
  FailedAt i steps x =
      (x.status ≡ failed)
      × (0 < length x.errors)
      × ((k : ℕ) × (s : WorkflowStep R) × (x.current_step ≡ i + k)
          × (get_elem? steps k ≡ some s)
          × IsFinal s.on_failure)

  -- The execution worked off all steps, with at most one more error for each; the last is the current
  -- one, or where there are none, the one that was.
  abbrev pub CompletedAfter :
      ℕ → List (WorkflowStep R) → WorkflowExecution R → WorkflowExecution R → Type 0
  CompletedAfter i steps x x' =
      (x'.status ≡ completed)
      × (length x'.errors ≤ length x.errors + length steps)
      × (((steps ≡ []) × (x'.current_step ≡ x.current_step))
          ⊎ (suc x'.current_step ≡ i + length steps))

  abbrev pub Ended : ℕ → List (WorkflowStep R) → WorkflowExecution R → WorkflowExecution R → Type 0
  Ended i steps x x' = CompletedAfter i steps x x' ⊎ FailedAt i steps x'

  follow-Ended :
      (i : ℕ) (s : WorkflowStep R) (steps : List (WorkflowStep R)) (x y x' : WorkflowExecution R)
      → y.current_step ≡ i
      → length y.errors ≤ suc (length x.errors)
      → Ended (suc i) steps y x'
      → Ended i (s ∷ steps) x x'
  follow-Ended i s steps x y x' now le (inl (done, few, inl (none_left, same))) =
      inl (done, omega (arith, few, le), inr (omega (arith, same, now, ap length none_left)))
  follow-Ended i s steps x y x' now le (inl (done, few, inr last)) =
      inl (done, omega (arith, few, le), inr (omega (arith, last)))
  follow-Ended i s steps x y x' now le (inr (bad, some_error, (k, t, at_k, found, final))) =
      inr (bad, some_error, (suc k, t, omega (arith, at_k), found, final))

  run_steps-Ended :
      (engine : WorkflowEngine R) (i : ℕ) (steps : List (WorkflowStep R)) (x : WorkflowExecution R)
      (w : R.World)
      → Ended i steps x (run_steps R engine i steps x w).0
  unfolding run_steps
  run_steps-Ended engine i [] x w = inl (refl, omega arith, inl (refl, refl))
  run_steps-Ended engine i (s ∷ steps) x w =
      next (run_step R engine i s x w) (run_step-After engine i s x w)
        (λ x' w'. run_steps-Ended engine (suc i) steps x' w')
    where
      next :
          (n : Next R)
          → After i s x n
          → ((x' : WorkflowExecution R) (w' : R.World)
              → Ended (suc i) steps x' (run_steps R engine (suc i) steps x' w').0)
          → Ended i (s ∷ steps) x (follow R (λ x' w'. run_steps R engine (suc i) steps x' w') n).0
      next (proceed x' w') h rest =
          follow-Ended i s steps x x' (run_steps R engine (suc i) steps x' w').0 h.1 h.2
            (rest x' w')
      next (halt x' w') h rest = inr (h.0, h.2, (0, s, omega (arith, h.1), refl, h.3))

  -- An execution of an unknown workflow is refused and does nothing. Any other ends, as completed after
  -- all its steps with at most one error for each, or as failed with an error, at a step whose policy
  -- is not to continue.
  pub execute_ends :
      (name : String) (context : Context R) (engine : WorkflowEngine R) (w : R.World)
      → ((get R name engine ≡ none)
          × (execute R name context engine w ≡ (err (R.not_found name), w)))
        ⊎ ((workflow : Workflow R) × (x : WorkflowExecution R) × (get R name engine ≡ some workflow)
            × ((execute R name context engine w).0 ≡ ok x)
            × Ended 0 workflow.steps (begin R name context) x)
  unfolding execute
  execute_ends name context engine w = elim (Option-cases (get R name engine)) [
    | inl unknown ↦ inl (unknown, rw (unknown, execute) refl)
    | inr (workflow, found) ↦ inr (
      workflow,
      (run_steps R engine 0 workflow.steps (begin R name context) w).0,
      found,
      rw (found, execute) refl,
      run_steps-Ended engine 0 workflow.steps (begin R name context) w,
    )
  ]

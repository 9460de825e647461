-- ===== src/Workflows/Schedule.antt =====
-- The scheduler (crates/atomo/src/workflow.rs). A moment is a number; the occurrences of an expression
-- are those of the cron library.
use mathlib.Core.Logic.{⊎_map}
use atomo.Prelude.{
  Bool-cases, ℕ, ◌≤◌, ◌<◌, leb, String, Bool, true, false, Option, none, some, List, [], ◌∷◌, ◌≡◌,
  refl, arith, ◌⊎◌, inl, inr, ◌↔◌,
}
use atomo.Prelude.Map.{values}
use atomo.Workflows.{
  Runtime, Result, ok, err, Workflow, WorkflowTrigger, on_event, manual, schedule, WorkflowEngine,
}
use atomo.Workflows.Engine.{execute}

-- `Schedule::from_str` and `schedule.after(&t).next()`.
pub record Cron : Type 1 where
  pub Schedule : Type 0
  pub parse : String → Result Schedule
  pub next_after : Schedule → ℕ → Option ℕ

module _ (C : Cron) where
  abbrev pub fires : Option ℕ → ℕ → Bool
  fires none now = false
  fires (some next) now = leb next now

  abbrev pub should_fire : Result C.Schedule → ℕ → ℕ → Result Bool
  should_fire (err e) last_tick now = err e
  should_fire (ok s) last_tick now = ok (fires (C.next_after s last_tick) now)

  unfoldable pub cron_should_fire : String → ℕ → ℕ → Result Bool
  cron_should_fire cron_expr last_tick now = should_fire (C.parse cron_expr) last_tick now

  -- The documented meaning of `after`: the first occurrence later than a moment.
  pub record IsCron (Occurs : C.Schedule → ℕ → Type 0) : Type 0 where
    pub later : (s : C.Schedule) (t n : ℕ) → C.next_after s t ≡ some n → (t < n) × Occurs s n
    pub first :
        (s : C.Schedule) (t n : ℕ)
        → Occurs s n
        → t < n
        → (m : ℕ) × (C.next_after s t ≡ some m) × (m ≤ n)

  module _ (R : Runtime) where
    abbrev pub cron_of : WorkflowTrigger → Option String
    cron_of (schedule cron) = some cron
    cron_of (on_event model event_type) = none
    cron_of manual = none

    abbrev with_cron : String → Option String → List (String × String) → List (String × String)
    with_cron name none rest = rest
    with_cron name (some cron) rest = (name, cron) ∷ rest

    -- The names and the expressions of the scheduled workflows.
    unfoldable pub scheduled : List (Workflow R) → List (String × String)
    scheduled [] = []
    scheduled (w ∷ rest) = with_cron w.name (cron_of w.trigger) (scheduled rest)

    abbrev fire : Result Bool → String → WorkflowEngine R → R.World → R.World
    fire (ok true) name engine w = (execute R name [] engine w).1
    fire (ok false) name engine w = w
    fire (err e) name engine w = w

    unfoldable pub fire_all : List (String × String) → ℕ → ℕ → WorkflowEngine R → R.World → R.World
    unfolding execute cron_should_fire
    fire_all [] last_tick now engine w = w
    fire_all ((name, cron_expr) ∷ rest) last_tick now engine w =
        fire_all rest last_tick now engine
          (fire (cron_should_fire cron_expr last_tick now) name engine w)

    -- A round of the scheduler's loop.
    unfoldable pub tick : ℕ → ℕ → WorkflowEngine R → R.World → R.World
    unfolding fire_all scheduled values
    tick last_tick now engine w =
        fire_all (scheduled (values engine.workflows)) last_tick now engine w

  module _ {Occurs : C.Schedule → ℕ → Type 0} (laws : IsCron Occurs) where
    -- There is an occurrence after a moment and up to another.
    abbrev pub OccursIn : C.Schedule → ℕ → ℕ → Type 0
    OccursIn s t now = (n : ℕ) × Occurs s n × (t < n) × (n ≤ now)

    fires-OccursIn :
        (s : C.Schedule) (t now : ℕ) (o : Option ℕ)
        → C.next_after s t ≡ o
        → fires o now ≡ true
        → OccursIn s t now
    fires-OccursIn s t now none e h = ground (arith, h)
    fires-OccursIn s t now (some n) e h =
        let found = laws.later s t n e in (n, found.1, found.0, ground (arith, h))

    OccursIn-fires :
        (s : C.Schedule) (t now : ℕ) → OccursIn s t now → fires (C.next_after s t) now ≡ true
    OccursIn-fires s t now (n, occurs, after, before) =
        let found = laws.first s t n occurs after in ground (arith, found.1, found.2, before)

    should_fire-OccursIn :
        (cron_expr : String) (s : C.Schedule) (t now : ℕ)
        → C.parse cron_expr ≡ ok s
        → (cron_should_fire cron_expr t now ≡ ok true) ↔ OccursIn s t now
    unfolding cron_should_fire
    should_fire-OccursIn cron_expr s t now parsed = (
      λ h. fires-OccursIn s t now (C.next_after s t) refl (ground (arith, h, parsed)),
      λ occurs. ground (arith, OccursIn-fires s t now occurs, parsed),
    )

    split :
        (s : C.Schedule) (t0 t1 t2 : ℕ)
        → t0 ≤ t1
        → t1 ≤ t2
        → OccursIn s t0 t2 ↔ (OccursIn s t0 t1 ⊎ OccursIn s t1 t2)
    split s t0 t1 t2 le le' = (apart, together)
      where
        apart : OccursIn s t0 t2 → OccursIn s t0 t1 ⊎ OccursIn s t1 t2
        apart (n, occurs, after, before) = elim (Bool-cases (leb n t1)) [
          | inl early ↦ inl (n, occurs, after, ground (arith, early))
          | inr late ↦ inr (n, occurs, ground (arith, late), before)
        ]

        together : OccursIn s t0 t1 ⊎ OccursIn s t1 t2 → OccursIn s t0 t2
        together (inl (n, occurs, after, before)) = (n, occurs, after, omega (arith, before, le'))
        together (inr (n, occurs, after, before)) = (n, occurs, omega (arith, after, le), before)

    -- If the cron library finds the first occurrence after a moment, then an expression that it reads
    -- fires at a tick exactly when it has an occurrence after the tick before and up to this one. So of
    -- two ticks in a row one fires, or both, exactly when one tick in their place would: no occurrence is
    -- lost between ticks.
    pub cron_should_fire_lem :
        (cron_expr : String) (s : C.Schedule) (t0 t1 t2 : ℕ)
        → C.parse cron_expr ≡ ok s
        → t0 ≤ t1
        → t1 ≤ t2
        → ((cron_should_fire cron_expr t0 t2 ≡ ok true) ↔ OccursIn s t0 t2)
          × ((cron_should_fire cron_expr t0 t2 ≡ ok true) ↔ (
              (cron_should_fire cron_expr t0 t1 ≡ ok true)
              ⊎ (cron_should_fire cron_expr t1 t2 ≡ ok true)))
    cron_should_fire_lem cron_expr s t0 t1 t2 parsed le le' =
        let whole = should_fire-OccursIn cron_expr s t0 t2 parsed in
        let first = should_fire-OccursIn cron_expr s t0 t1 parsed in
        let second = should_fire-OccursIn cron_expr s t1 t2 parsed in
        let parts = split s t0 t1 t2 le le' in
        (
          whole,
          (
            λ h. ⊎_map first.1 second.1 (parts.0 (whole.0 h)),
            λ h. whole.1 (parts.1 (⊎_map first.0 second.0 h)),
          ),
        )

-- ===== src/ControlPlane/Convergence/Ticks.antt =====
-- A pass over the registry (crates/atomo_control_plane/src/reconciler.rs).
use atomo.Prelude.{
  String, Bool, true, List, [], ◌∷◌, All, All-mono, ◌≡◌, ◌≢◌, sym, arith, eq_iff, Bool-cases, inl,
  inr,
}
use atomo.Prelude.Sorting.{insert_by, sort_by}
use atomo.ControlPlane.{Project, InstanceState}
use atomo.ControlPlane.Registry.{list}
use atomo.ControlPlane.Registry.Keys.{Differ, IsUnique}
use atomo.ControlPlane.Runtime.{Runtime, World}
use atomo.ControlPlane.Reconciler.{tick}
use atomo.ControlPlane.Drivers.{IsDriver}
use atomo.ControlPlane.Convergence.{outcomes, Apart, Converged, visit_all-Converged}

module _ (R : Runtime) (le : Project R.Json → Project R.Json → Bool) where
  abbrev NotOf : Project R.Json → Project R.Json → Type 0
  NotOf p q = p.id ≢ q.id

  All-inserted :
      (p a : Project R.Json) (bs : List (Project R.Json))
      → NotOf p a
      → All (NotOf p) bs
      → All (NotOf p) (insert_by le a bs)
  unfolding insert_by
  All-inserted p a [] n h = (n, tt)
  All-inserted p a (b ∷ bs) n h = elim (Bool-cases (le a b)) [
    | inl before ↦ rw before (n, h)
    | inr after ↦ rw after (h.0, All-inserted p a bs n h.1)
  ]

  inserted-Apart :
      (a : Project R.Json) (bs : List (Project R.Json))
      → All (NotOf a) bs
      → Apart R bs
      → Apart R (insert_by le a bs)
  unfolding insert_by
  inserted-Apart a [] n h = (tt, tt)
  inserted-Apart a (b ∷ bs) n h = elim (Bool-cases (le a b)) [
    | inl before ↦ rw before (n, h)
    | inr after ↦ rw after (All-inserted b a bs (λ e. n.0 (sym e)) h.0, inserted-Apart a bs n.1 h.1)
  ]

  All-sorted :
      (p : Project R.Json) (ps : List (Project R.Json))
      → All (NotOf p) ps
      → All (NotOf p) (sort_by le ps)
  unfolding sort_by
  All-sorted p [] h = tt
  All-sorted p (q ∷ ps) h = All-inserted p q (sort_by le ps) h.0 (All-sorted p ps h.1)

  Differ-NotOf : (p q : Project R.Json) → Differ p q → NotOf p q
  Differ-NotOf p q d e = ground (arith, d.0, e, eq_iff p.id q.id)

  sorted-Apart : (ps : List (Project R.Json)) → IsUnique ps → Apart R (sort_by le ps)
  unfolding sort_by
  sorted-Apart [] h = tt
  sorted-Apart (p ∷ ps) h =
      inserted-Apart p (sort_by le ps)
        (All-sorted p ps (All-mono (Differ p) (NotOf p) (Differ-NotOf p) ps h.0))
        (sorted-Apart ps h.1)

module _ (R : Runtime) (state_of : String → R.Outer → InstanceState)
    (laws : IsDriver R state_of) where
  -- Over a driver that does what it documents and a registry with unique ids: after a pass of the
  -- reconcile loop, each project whose own calls succeeded has its instance in the state that is wanted,
  -- whatever failed for the others.
  pub tick-Converged :
      (w : World R)
      → IsUnique w.registry.projects
      → All
          (λ x. x.1 ≡ true → Converged R state_of laws x.0 (tick R w))
          (outcomes R (list R.text_le w.registry) w)
  unfolding tick list
  tick-Converged w unique =
      visit_all-Converged R state_of laws (list R.text_le w.registry) w
        (sorted-Apart R (λ p q. R.text_le p.id q.id) w.registry.projects unique)

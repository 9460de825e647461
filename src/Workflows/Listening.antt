-- ===== src/Workflows/Listening.antt =====
-- Events and the workflows they set off (crates/atomo/src/workflow.rs).
use atomo.Prelude.{
  ◌↔◌, All-mono, All-filter, get_elem?-filter, ℕ, string_key, ℕ, String, true, some, List, [], ◌∷◌,
  ◌≡◌, sym, arith, All, get_elem?, filter, eq_iff, subst,
}
use atomo.Prelude.Map
use atomo.Prelude.Map.{Map, values, get-insert, get-remove}
use atomo.Prelude.Map.Distinct.{
  IsDistinct, insert-IsDistinct, remove-IsDistinct, All-values, get_elem?-values,
}
use atomo.Workflows.{
  Runtime, Context, Workflow, WorkflowTrigger, on_event, manual, schedule, WorkflowEngine,
}
use atomo.Workflows.Engine.{new, register, remove, get, find_by_trigger, is_triggered, execute}

module _ (R : Runtime) where
  -- The loop of the listener over the workflows that it found; the results are logged only.
  unfoldable pub execute_all : List (Workflow R) → Context R → WorkflowEngine R → R.World → R.World
  unfolding execute
  execute_all [] context engine w = w
  execute_all (workflow ∷ rest) context engine w =
      execute_all rest context engine (execute R workflow.name context engine w).1

  -- What the listener does with an event of a model.
  unfoldable pub on_model_event : String → String → Context R → WorkflowEngine R → R.World → R.World
  unfolding execute_all find_by_trigger
  on_model_event model event_type context engine w =
      execute_all (find_by_trigger R model event_type engine) context engine w

  pub data Edit : Type 0 where
    registers : Workflow R → Edit
    removes : String → Edit

  unfoldable pub edit : Edit → WorkflowEngine R → WorkflowEngine R
  unfolding register remove
  edit (registers workflow) engine = register R workflow engine
  edit (removes name) engine = (remove R name engine).1

  unfoldable pub edits : List Edit → WorkflowEngine R → WorkflowEngine R
  unfolding edit
  edits [] engine = engine
  edits (e ∷ rest) engine = edits rest (edit e engine)

  -- Each workflow is under its own name.
  record IsNamed (engine : WorkflowEngine R) : Type 0 where
    pub distinct : IsDistinct engine.workflows
    pub named :
        (k : String) (workflow : Workflow R)
        → Map.get k engine.workflows ≡ some workflow
        → workflow.name ≡ k

  edit-IsNamed : (e : Edit) (engine : WorkflowEngine R) → IsNamed engine → IsNamed (edit e engine)
  unfolding edit register remove
  edit-IsNamed (registers workflow) engine h = record {
    distinct = insert-IsDistinct workflow.name workflow engine.workflows h.distinct;
    named = λ k v e. ground (
      arith,
      get-insert workflow.name k workflow engine.workflows,
      eq_iff workflow.name k,
      h.named k v,
      e,
    );
  }
  edit-IsNamed (removes name) engine h = record {
    distinct = remove-IsDistinct name engine.workflows h.distinct;
    named = λ k v e. ground (arith, get-remove name k engine.workflows, h.named k v, e);
  }

  edits-IsNamed :
      (es : List Edit) (engine : WorkflowEngine R) → IsNamed engine → IsNamed (edits es engine)
  unfolding edits
  edits-IsNamed [] engine h = h
  edits-IsNamed (e ∷ es) engine h = edits-IsNamed es (edit e engine) (edit-IsNamed e engine h)

  new-IsNamed : IsNamed (new R)
  unfolding new IsDistinct Map.get
  new-IsNamed = record { distinct = tt; named = λ k workflow e. ground (arith, e) }

  triggered_lem :
      (model event_type : String) (t : WorkflowTrigger)
      → (is_triggered model event_type t ≡ true) ↔ (t ≡ on_event model event_type)
  triggered_lem model event_type (on_event m e) =
      ground (arith, eq_iff m model, eq_iff e event_type)
  triggered_lem model event_type manual = ground arith
  triggered_lem model event_type (schedule cron) = ground arith

  -- After any registrations and removals, the workflows that an event finds are exactly those registered
  -- with it as their trigger, and the name of each, under which the listener executes it, is that of
  -- that very workflow.
  pub find_by_trigger_lem :
      (es : List Edit) (model event_type : String)
      → let engine = edits es (new R) in
        let found = find_by_trigger R model event_type engine in
        All (λ w. (get R w.name engine ≡ some w) × (w.trigger ≡ on_event model event_type)) found
        × ((name : String) (w : Workflow R)
            → get R name engine ≡ some w
            → w.trigger ≡ on_event model event_type
            → (i : ℕ) × (get_elem? found i ≡ some w))
  unfolding find_by_trigger get
  find_by_trigger_lem es model event_type =
      let engine = edits es (new R) in
      let h = edits-IsNamed es (new R) new-IsNamed in
      let p = λ (w : Workflow R). is_triggered model event_type w.trigger in
      (
        All-mono (λ (w : Workflow R). (Map.get w.name engine.workflows ≡ some w) × (p w ≡ true))
            (λ (w : Workflow R).
              (Map.get w.name engine.workflows ≡ some w) × (w.trigger ≡ on_event model event_type))
            (λ w x. (x.0, (triggered_lem model event_type w.trigger).0 x.1))
            (filter p (values engine.workflows))
            (All-filter (λ (w : Workflow R). Map.get w.name engine.workflows ≡ some w) p
              (values engine.workflows)
              (All-values (λ (w : Workflow R). Map.get w.name engine.workflows ≡ some w)
                engine.workflows h.distinct
                (λ k w there.
                  subst (λ (j : String). Map.get j engine.workflows ≡ some w)
                    (sym (h.named k w there)) there))),
        λ name w there triggered.
            let at = get_elem?-values name engine.workflows w there in
            get_elem?-filter p (values engine.workflows) at.0 w at.1
              ((triggered_lem model event_type w.trigger).1 triggered),
      )

-- ===== src/Cache/Coherence/Freshness.antt =====
-- What is read of a strong cache is what the database would answer (crates/atomo/src/client.rs with
-- cache.rs).
use atomo.Prelude.{
  string_key, ℕ, ◌+◌, ◌<◌, String, true, false, Option, none, some, some-injective, List, [], ◌∷◌,
  get_elem?, All-get_elem?, ◌≡◌, refl, sym, ap, ◌∙◌, arith, Option-cases, inl, inr, nat_eq_iff,
  subst,
}
use atomo.Prelude.Map
use atomo.Cache.{CacheConfig, CacheEntry, ReadCache, is_strong, checked, with_config}
use atomo.Cache.Operations.{word}
use atomo.Cache.Methods.{
  get, set_if_generation, invalidate_advance, invalidate_clear, invalidate_remove, evict_expired,
  outdated,
}
use atomo.Cache.Lookup.{entry, visible, get_lem}
use atomo.Cache.Coherence.{
  World, Action, starts, fetches, fills, commits, advances, clears, reads, removes, sweeps, fill,
  act, run, start, advance_count,
}
use atomo.Cache.Coherence.Marks.{
  mark, remove-Marked, reclaim-Marked, clear-Marked, get-Marked, set-Marked,
}
use atomo.Cache.Coherence.Safety.{
  Current, InCache, IsCoherent, Marked-IsCoherent, fetch-IsCoherent, advance-IsCoherent,
  commit-IsCoherent,
}

module _ {V : Type 0} (to_vec : V → Option ℕ) where
  fill-InCache :
      (P : String → ℕ → V → Type 0) (now later : ℕ) (k : String) (generation : ℕ) (value : V)
      (c : ReadCache V)
      → P k generation value
      → InCache P c.state
      → InCache P (set_if_generation to_vec now later k value generation c).state
  fill-InCache P now later k generation value c p h key v g e =
      elim (set-Marked to_vec now later k key value generation c) [
        | inl (inl same) ↦ h key v g (sym same ∙ e)
        | inl (inr gone) ↦ ground (arith, gone, e)
        | inr (current, (same, marked)) ↦
            let pair = some-injective _ _ (sym marked ∙ e) in
            subst (λ (x : String). P x g v) (sym same)
              (subst (λ (n : ℕ). P k n v) (current ∙ ap (λ (x : V × ℕ). x.1) pair)
                (subst (λ (u : V). P k generation u) (ap (λ (x : V × ℕ). x.0) pair) p))
      ]

  fill-IsCoherent :
      (now later i : ℕ) (w : World V) (o : Option (String × ℕ × V))
      → get_elem? w.fetched i ≡ o
      → IsCoherent w
      → IsCoherent (fill to_vec now later o w)
  unfolding set_if_generation
  fill-IsCoherent now later i w none e h = h
  fill-IsCoherent now later i w (some (key, generation, value)) e h = record {
    cached =
        fill-InCache (Current w.cache.generation w.behind w.database) now later key generation value
          w.cache
          (All-get_elem?
            (λ (p : String × ℕ × V). Current w.cache.generation w.behind w.database p.0 p.1 p.2)
            w.fetched i (key, generation, value) h.fetched e)
          h.cached;
    fetched = h.fetched;
    started = h.started;
  }

  act-IsCoherent :
      (a : Action V) (rest : List (Action V)) (w : World V)
      → w.cache.generation + advance_count (a ∷ rest) < word
      → IsCoherent w
      → IsCoherent (act to_vec a w)
  unfolding act advance_count get invalidate_clear invalidate_remove evict_expired
  act-IsCoherent (starts key) rest w small h = record {
    cached = h.cached;
    fetched = h.fetched;
    started = (omega arith, h.started);
  }
  act-IsCoherent (fetches i) rest w small h = fetch-IsCoherent w i _ refl h
  act-IsCoherent (fills now later i) rest w small h = fill-IsCoherent now later i w _ refl h
  act-IsCoherent (commits database) rest w small h = commit-IsCoherent w database h
  act-IsCoherent advances rest w small h = advance-IsCoherent w (omega (arith, small)) h
  act-IsCoherent clears rest w small h =
      Marked-IsCoherent w (invalidate_clear w.cache) refl (λ key. clear-Marked key w.cache) h
  act-IsCoherent (reads now k) rest w small h =
      Marked-IsCoherent w (get now k w.cache).1 refl (λ key. get-Marked now k key w.cache) h
  act-IsCoherent (removes k) rest w small h =
      Marked-IsCoherent w (invalidate_remove k w.cache) refl
        (λ key. remove-Marked k key w.cache.state) h
  act-IsCoherent (sweeps now) rest w small h =
      Marked-IsCoherent w (evict_expired now w.cache) refl
        (λ key. reclaim-Marked now key w.cache.state) h

  generation-act-le :
      (a : Action V) (rest : List (Action V)) (w : World V)
      → w.cache.generation + advance_count (a ∷ rest) < word
      → (act to_vec a w).cache.generation + advance_count rest < word
  unfolding act advance_count set_if_generation get invalidate_advance invalidate_clear
      invalidate_remove evict_expired
  generation-act-le (starts key) rest w h = h
  generation-act-le (fetches i) rest w h = elim (Option-cases (get_elem? w.started i)) [
    | inl nobody ↦ rw nobody h
    | inr ((key, generation), found) ↦ rw found h
  ]
  generation-act-le (fills now later i) rest w h = elim (Option-cases (get_elem? w.fetched i)) [
    | inl nobody ↦ rw nobody h
    | inr ((key, generation, value), found) ↦ rw found h
  ]
  generation-act-le (commits database) rest w h = h
  generation-act-le advances rest w h = omega (arith, h)
  generation-act-le clears rest w h = h
  generation-act-le (reads now k) rest w h = h
  generation-act-le (removes k) rest w h = h
  generation-act-le (sweeps now) rest w h = h

  run-IsCoherent :
      (actions : List (Action V)) (w : World V)
      → w.cache.generation + advance_count actions < word
      → IsCoherent w
      → IsCoherent (run to_vec actions w)
  unfolding run
  run-IsCoherent [] w small h = h
  run-IsCoherent (a ∷ rest) w small h =
      run-IsCoherent rest (act to_vec a w) (generation-act-le a rest w small)
        (act-IsCoherent a rest w small h)

  start-IsCoherent :
      (config : CacheConfig) (database : String → V) → IsCoherent (start config database)
  unfolding start with_config Map.get
  start-IsCoherent config database = record {
    cached = λ key value generation e. ground (arith, e);
    fetched = tt;
    started = tt;
  }

  visible_current :
      (c : ReadCache V) (now : ℕ) (o : Option (CacheEntry V)) (value : V)
      → is_strong c.config.mode ≡ true
      → visible c now o ≡ some value
      → mark o ≡ some (value, c.generation)
  unfolding visible outdated
  visible_current c now none value strong_mode h = ground (arith, h)
  visible_current c now (some e) value strong_mode h =
      ground (arith, h, strong_mode, nat_eq_iff e.generation c.generation)

  mode-act : (a : Action V) (w : World V) → (act to_vec a w).cache.config.mode ≡ w.cache.config.mode
  unfolding act set_if_generation get invalidate_advance invalidate_clear invalidate_remove
      evict_expired
  mode-act (starts key) w = refl
  mode-act (fetches i) w = elim (Option-cases (get_elem? w.started i)) [
    | inl nobody ↦ rw nobody refl
    | inr ((key, generation), found) ↦ rw found refl
  ]
  mode-act (fills now later i) w = elim (Option-cases (get_elem? w.fetched i)) [
    | inl nobody ↦ rw nobody refl
    | inr ((key, generation, value), found) ↦ rw found refl
  ]
  mode-act (commits database) w = refl
  mode-act advances w = refl
  mode-act clears w = refl
  mode-act (reads now k) w = refl
  mode-act (removes k) w = refl
  mode-act (sweeps now) w = refl

  mode-run :
      (actions : List (Action V)) (w : World V)
      → (run to_vec actions w).cache.config.mode ≡ w.cache.config.mode
  unfolding run
  mode-run [] w = refl
  mode-run (a ∷ rest) w = mode-run rest (act to_vec a w) ∙ mode-act a w

  mode-start :
      (config : CacheConfig) (database : String → V)
      → (start config database).cache.config.mode ≡ config.mode
  unfolding start with_config checked
  mode-start config database = ground arith

  visible-get :
      (now : ℕ) (key : String) (c : ReadCache V) (value : V)
      → (get now key c).0 ≡ some value
      → visible c now (entry key c.state) ≡ some value
  visible-get now key c value h = ground (arith, h, get_lem now key c)

  -- In a strong cache, of any interleaving of readers, writers, expiry and eviction with fewer than
  -- 2^64 invalidations, and at a moment when no commit waits for its invalidation, what is read of a
  -- key is what the database answers.
  pub run-IsFresh :
      (config : CacheConfig) (database : String → V) (actions : List (Action V))
      → is_strong config.mode ≡ true
      → advance_count actions < word
      → let w = run to_vec actions (start config database) in
        w.behind ≡ false
        → (now : ℕ) (key : String) (value : V) → (get now key w.cache).0 ≡ some value
        → value ≡ w.database key
  unfolding start with_config
  run-IsFresh config database actions strong_mode small up_to_date now key value h =
      let w0 = start config database in
      let w = run to_vec actions w0 in
      let coherent =
        run-IsCoherent actions w0 (omega (arith, small)) (start-IsCoherent config database) in
      let same_mode = ap is_strong (mode-run actions w0 ∙ mode-start config database) in
      let seen =
        visible_current w.cache now (entry key w.cache.state) value (same_mode ∙ strong_mode)
          (visible-get now key w.cache value h) in
      (coherent.cached key value w.cache.generation seen).1 refl up_to_date

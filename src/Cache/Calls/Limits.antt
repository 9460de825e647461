-- ===== src/Cache/Calls/Limits.antt =====
-- The read cache stays within its limits, whatever is called (crates/atomo/src/cache.rs).
use atomo.Prelude.{
  eq_iff, string_key, ℕ, ◌-◌, ◌≤◌, ◌<◌, String, false, Option, none, List, [], ◌∷◌, ◌≡◌, refl,
  arith, nat_eq, Bool-cases, inl, inr, nat_eq_iff,
}
use atomo.Prelude.Map
use atomo.Prelude.Map.{Map, get-remove, length-insert_there}
use atomo.Prelude.Map.Distinct.{insert-IsDistinct, length-insert_absent}
use atomo.Cache.{CacheConfig, State, ReadCache, with_config, checked, is_strong}
use atomo.Cache.Operations.{total, word, remove, store, reclaim, new_entry}
use atomo.Cache.Methods.{skips, fill_state, weigh, invalidate_clear}
use atomo.Cache.Validity.{IsValid, HasRoom, remove-IsValid, reclaim-IsValid, make_room-HasRoom}
use atomo.Cache.Calls.{Call, gets, fills, advances, clears, removes, sweeps, bypasses, step, run}
use atomo.Cache.Validity.Touching.{get_state-IsValid, store-IsValid, recount-IsValid}

module _ {V : Type 0} where
  get-removed : (k : String) (s : State V) → Map.get k (remove k s).entries ≡ none
  unfolding remove
  get-removed k s = ground (arith, get-remove k k s.entries, eq_iff k k)

module _ {V : Type 0} (to_vec : V → Option ℕ) where
  -- What is not skipped fits an empty cache.
  skips-false :
      (config : CacheConfig) (key : String) (bytes : ℕ)
      → skips to_vec config key bytes ≡ false
      → (0 < config.max_entries) × (bytes ≤ config.max_bytes)
  unfolding skips
  skips-false config key bytes h = ground (arith, h, nat_eq_iff config.max_entries 0)

  module _ (config : CacheConfig) (bounded : config.max_bytes < word - 1) where
    store_new-IsValid :
        (key : String) (value : V) (generation later : ℕ) (s : State V)
        → HasRoom config bounded key (weigh to_vec key value) s
        → IsValid config
            (store key (new_entry config key value generation (weigh to_vec key value) later) s)
    unfolding new_entry
    store_new-IsValid key value generation later s h = store-IsValid config bounded key _ s h

  abbrev pub Bounded : ReadCache V → Type 0
  Bounded c = c.config.max_bytes < word - 1

  abbrev pub Valid : ReadCache V → Type 0
  Valid c = IsValid c.config c.state

  fill_state-IsValid :
      (c : ReadCache V) (now later : ℕ) (key : String) (value : V)
      → Bounded c
      → Valid c
      → IsValid c.config (fill_state to_vec c now later key value)
  unfolding fill_state
  fill_state-IsValid c now later key value bounded h =
      let bytes = weigh to_vec key value in
      elim (Bool-cases (skips to_vec c.config key bytes)) [
        | inl skipped ↦ rw skipped (recount-IsValid c.config bounded c.state _ _ _ _ h)
        | inr kept ↦
            let fits = skips-false c.config key bytes kept in
            rw kept (
              store_new-IsValid c.config bounded key value c.generation later _ (
                make_room-HasRoom c.config bounded key bytes (remove key (reclaim now c.state))
                  fits.0 fits.1
                  (remove-IsValid c.config bounded key _
                    (reclaim-IsValid c.config bounded now c.state h))
                  (get-removed key (reclaim now c.state))))
      ]

  clear-IsValid : (c : ReadCache V) → Valid c → Valid (invalidate_clear c)
  unfolding invalidate_clear Map.Distinct.IsDistinct total
  clear-IsValid c h = elim (Bool-cases (is_strong c.config.mode)) [
    | inl strong_mode ↦ rw strong_mode (record {
      distinct = tt;
      counted = refl;
      weighed = refl;
      few = omega arith;
      light = omega arith;
    })
    | inr weak ↦ rw weak (record {
      distinct = h.distinct;
      counted = h.counted;
      weighed = h.weighed;
      few = h.few;
      light = h.light;
    })
  ]

  step-IsValid : (a : Call V) (c : ReadCache V) → Bounded c → Valid c → Valid (step to_vec a c)
  unfolding step
  step-IsValid (gets now key) c bounded h = get_state-IsValid c.config bounded c now key h
  step-IsValid (fills now later key value generation) c bounded h =
      elim (Bool-cases (nat_eq generation c.generation)) [
        | inl current ↦ rw current (fill_state-IsValid c now later key value bounded h)
        | inr stale ↦ rw stale (recount-IsValid c.config bounded c.state _ _ _ _ h)
      ]
  step-IsValid advances c bounded h = h
  step-IsValid clears c bounded h = clear-IsValid c h
  step-IsValid (removes key) c bounded h = remove-IsValid c.config bounded key c.state h
  step-IsValid (sweeps now) c bounded h = reclaim-IsValid c.config bounded now c.state h
  step-IsValid bypasses c bounded h = record {
    distinct = h.distinct;
    counted = h.counted;
    weighed = h.weighed;
    few = h.few;
    light = h.light;
  }

  config-step : (a : Call V) (c : ReadCache V) → (step to_vec a c).config ≡ c.config
  unfolding step
  config-step (gets now key) c = refl
  config-step (fills now later key value generation) c = refl
  config-step advances c = refl
  config-step clears c = refl
  config-step (removes key) c = refl
  config-step (sweeps now) c = refl
  config-step bypasses c = refl

  run_from-IsValid :
      (calls : List (Call V)) (c : ReadCache V) → Bounded c → Valid c → Valid (run to_vec calls c)
  unfolding run
  run_from-IsValid [] c bounded h = h
  run_from-IsValid (a ∷ rest) c bounded h =
      run_from-IsValid rest (step to_vec a c) (rw (config-step a c) bounded)
        (step-IsValid a c bounded h)

  -- If the limit on bytes is below the largest `usize`, then after any calls on a new cache its keys are
  -- distinct, its counts of entries and of bytes are those of its entries, and both are within the
  -- limits of its configuration.
  pub run-IsValid :
      (config : CacheConfig)
      → (checked config).max_bytes < word - 1
      → (calls : List (Call V))
      → let c = run to_vec calls (with_config config) in IsValid c.config c.state
  unfolding with_config Map.Distinct.IsDistinct total
  run-IsValid config bounded calls = run_from-IsValid calls (with_config config) bounded (record {
    distinct = tt;
    counted = refl;
    weighed = refl;
    few = omega arith;
    light = omega arith;
  })

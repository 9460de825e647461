-- ===== src/Cache/Eviction/Ends.antt =====
-- The loops of `set_if_generation` end (crates/atomo/src/cache.rs).
use atomo.Prelude.{ℕ, String, false, [], length, ◌≡◌, ◌≤◌, ◌⊎◌, arith}
use Prim.Native.String.{◌++◌ as str_append}
use atomo.Cache.{CacheConfig, State, model_of}
use atomo.Cache.Operations.{evict_while, of_model, over_capacity, over_policy, make_room}
use atomo.Cache.Eviction.{evict_while_settles, evict_while_enough, get-of_model}

abbrev model_prefix : String → String
model_prefix key = str_append (model_of key) ":"

module _ {V : Type 0} where
  -- With as much fuel as there are entries, each of the two loops that make room for an entry ends by
  -- its own test, or because it has no entry left to take out; more fuel would change nothing.
  pub make_room_ends :
      (config : CacheConfig) (key : String) (bytes : ℕ) (s : State V)
      → let first = λ (fuel : ℕ). evict_while (λ m. m) (over_capacity config bytes) fuel s in
        let s' = first (length s.entries) in
        let second = λ (fuel : ℕ).
          evict_while (of_model (model_prefix key)) (over_policy config key bytes) fuel s' in
        let r = make_room config key bytes s in
        ((over_capacity config bytes s' ≡ false) ⊎ (s'.entries ≡ []))
        × ((over_policy config key bytes r ≡ false) ⊎ (of_model (model_prefix key) r.entries ≡ []))
        × ((fuel : ℕ) → length s.entries ≤ fuel → first fuel ≡ s')
        × ((fuel : ℕ) → length s'.entries ≤ fuel → second fuel ≡ r)
  unfolding make_room
  make_room_ends config key bytes s =
      let s' = evict_while (λ m. m) (over_capacity config bytes) (length s.entries) s in
      let looks = get-of_model (model_prefix key) in
      (
        evict_while_settles (λ m. m) (over_capacity config bytes) (λ j m e. e) (length s.entries) s
            (omega arith),
        evict_while_settles (of_model (model_prefix key)) (over_policy config key bytes) looks
            (length s'.entries) s' (omega arith),
        λ fuel enough.
            evict_while_enough (λ m. m) (over_capacity config bytes) (λ j m e. e) (length s.entries)
              fuel s (omega arith) enough,
        λ fuel enough.
            evict_while_enough (of_model (model_prefix key)) (over_policy config key bytes) looks
              (length s'.entries) fuel s' (omega arith) enough,
      )

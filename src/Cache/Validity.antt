-- ===== src/Cache/Validity.antt =====
-- The accounts of the read cache are right and within its limits, whatever is called
-- (crates/atomo/src/cache.rs).
pub mod Touching
use atomo.Prelude.{
  ◌&&◌, ◌||◌, not, min, string_key, ℕ, zero, suc, ◌+◌, ◌-◌, ◌≤◌, ◌<◌, String, Bool, true, false,
  Option, none, some, List, [], ◌∷◌, length, ◌≡◌, refl, arith, eq_iff, if◌then◌else◌, leb, ltb,
  unwrap_or, ◌⊎◌, inl, inr, Bool-cases, Option-cases, nat_eq_iff,
}
use atomo.Prelude.Map
use atomo.Prelude.Map.{Map, get-insert, get-remove, length-remove-le, length-insert_there}
use atomo.Prelude.Map.Distinct.{
  IsDistinct, remove-IsDistinct, insert-IsDistinct, length-insert_absent,
}
use atomo.Cache.{CacheConfig, CacheEntry, State, ReadCache, expired, is_strong}
use atomo.Cache.Operations.{
  total, word, wrapping_sub, remove, discount, count_expired, count_evicted, reclaim, reclaim_all,
  expired_keys, evict_while, oldest, store, over_capacity, make_room, over_policy, of_model,
}
use atomo.Cache.Eviction.{reclaim_all-keeps, evict_while-keeps, evict_while_settles}
use atomo.Cache.Accounts.{bytes_of, total-remove, total-insert, wrapping_sub_lem}

module _ {V : Type 0} where
  pub record IsValid (config : CacheConfig) (s : State V) : Type 0 where
    pub distinct : IsDistinct s.entries
    pub counted : s.metrics.entries ≡ length s.entries
    pub weighed : s.metrics.estimated_bytes ≡ total s.entries
    pub few : length s.entries ≤ config.max_entries
    pub light : total s.entries ≤ config.max_bytes

module _ {V : Type 0} (config : CacheConfig) (bounded : config.max_bytes < word - 1) where
  total-remove-le :
      (k : String) (s : State V)
      → IsDistinct s.entries
      → total (Map.remove k s.entries) ≤ total s.entries
  total-remove-le k s h = omega (arith, total-remove k s.entries h)

  discount_lem :
      (o : Option (CacheEntry V)) (t a : ℕ) → t + bytes_of o ≡ a → a < word → discount o a ≡ t
  discount_lem none t a h small = omega (arith, h)
  discount_lem (some e) t a h small = wrapping_sub_lem a e.bytes t h small

  pub remove-IsValid : (k : String) (s : State V) → IsValid config s → IsValid config (remove k s)
  unfolding remove
  remove-IsValid k s h = record {
    distinct = remove-IsDistinct k s.entries h.distinct;
    counted = refl;
    weighed =
        discount_lem (Map.get k s.entries) _ _
          (omega (arith, total-remove k s.entries h.distinct, h.weighed))
          (omega (arith, h.weighed, h.light, bounded));
    few = omega (arith, length-remove-le k s.entries, h.few);
    light = omega (arith, total-remove-le k s h.distinct, h.light);
  }

  -- The counts of what was taken out are no account of what is there.
  recount-IsValid :
      (s : State V) (expired evicted : ℕ)
      → IsValid config s
      → IsValid config
          (record s { metrics = record s.metrics { expired = expired; evicted = evicted } })
  recount-IsValid s expired evicted h = record {
    distinct = h.distinct;
    counted = h.counted;
    weighed = h.weighed;
    few = h.few;
    light = h.light;
  }

  pub reclaim-IsValid : (now : ℕ) (s : State V) → IsValid config s → IsValid config (reclaim now s)
  unfolding reclaim
  reclaim-IsValid now s h =
      reclaim_all-keeps (IsValid config)
        (λ k s' h'. recount-IsValid (remove k s') _ _ (remove-IsValid k s' h'))
        (expired_keys now s.entries) s h

  -- There is room for an entry of a key: it is not there, and the limits are not reached.
  pub record HasRoom (key : String) (bytes : ℕ) (s : State V) : Type 0 where
    pub valid : IsValid config s
    pub absent : Map.get key s.entries ≡ none
    pub fewer : length s.entries < config.max_entries
    pub lighter : total s.entries + bytes ≤ config.max_bytes

  remove-absent :
      (key k : String) (s : State V)
      → Map.get key s.entries ≡ none
      → Map.get key (remove k s).entries ≡ none
  unfolding remove
  remove-absent key k s h = ground (arith, get-remove k key s.entries)

  evict-HasRoom :
      (key : String) (bytes : ℕ) (k : String) (s : State V)
      → HasRoom key bytes s
      → HasRoom key bytes (count_evicted (remove k s))
  unfolding remove
  evict-HasRoom key bytes k s h = record {
    valid = recount-IsValid (remove k s) _ _ (remove-IsValid k s h.valid);
    absent = remove-absent key k s h.absent;
    fewer = omega (arith, length-remove-le k s.entries, h.fewer);
    lighter = omega (arith, total-remove-le k s h.valid.distinct, h.lighter);
  }

  settled-HasRoom :
      (key : String) (bytes : ℕ) (s : State V)
      → 0 < config.max_entries
      → bytes ≤ config.max_bytes
      → IsValid config s
      → Map.get key s.entries ≡ none
      → (over_capacity config bytes s ≡ false) ⊎ (s.entries ≡ [])
      → HasRoom key bytes s
  unfolding over_capacity total
  settled-HasRoom key bytes s some_entries fits h absent (inl under) = record {
    valid = h;
    absent = absent;
    fewer = ground (arith, under);
    lighter = ground (arith, under, h.weighed, bounded);
  }
  settled-HasRoom key bytes s some_entries fits h absent (inr empty) = record {
    valid = h;
    absent = absent;
    fewer = rw empty some_entries;
    lighter = rw empty (omega (arith, fits));
  }

  -- The two loops make room.
  pub make_room-HasRoom :
      (key : String) (bytes : ℕ) (s : State V)
      → 0 < config.max_entries
      → bytes ≤ config.max_bytes
      → IsValid config s
      → Map.get key s.entries ≡ none
      → HasRoom key bytes (make_room config key bytes s)
  unfolding make_room
  make_room-HasRoom key bytes s some_entries fits h absent =
      let kept =
        evict_while-keeps (λ m. m) (over_capacity config bytes)
          (λ (s' : State V). IsValid config s' × (Map.get key s'.entries ≡ none))
          (λ k s' h'. (
            recount-IsValid (remove k s') _ _ (remove-IsValid k s' h'.0),
            remove-absent key k s' h'.1,
          ))
          (length s.entries) s (h, absent) in
      evict_while-keeps (of_model _) (over_policy config key bytes) (HasRoom key bytes)
        (evict-HasRoom key bytes) _ _
        (settled-HasRoom key bytes _ some_entries fits kept.0 kept.1 (
          evict_while_settles (λ m. m) (over_capacity config bytes) (λ j m e. e) (length s.entries)
            s (omega arith)))

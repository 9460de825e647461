-- ===== src/Cache/Methods.antt =====
-- The methods of `ReadCache` (crates/atomo/src/cache.rs). A method holds the lock of the state, and
-- reads the generation once. What a method reads of the clock is an argument.
use atomo.Prelude.{
  string_key, ℕ, ◌-◌, min, String, Bool, ◌||◌, ◌&&◌, not, Option, none, some, ltb, nat_eq,
  unwrap_or, is_some_and, [], if◌then◌else◌,
}
use atomo.Prelude.Map
use Prim.Native.String.{len}
use atomo.Cache.{
  CacheStatus, CacheConfig, CacheEntry, State, ReadCache, is_strong, expired, refresh_due, policy,
  enabled,
}
use atomo.Cache.Operations.{
  word, inc, saturating_add, remove, count_expired, reclaim, make_room, new_entry, store,
}

module _ {V : Type 0} where
  -- An entry that `get` takes out: it has expired, or is of an earlier generation of a strong cache.
  unfoldable pub outdated : ReadCache V → ℕ → CacheEntry V → Bool
  unfolding expired is_strong
  outdated c now e =
      expired now e || is_strong c.config.mode && not (nat_eq e.generation c.generation)

  abbrev pub count_hit : State V → State V
  count_hit s = record s { metrics = record s.metrics { hits = inc s.metrics.hits } }

  abbrev pub count_miss : State V → State V
  count_miss s = record s { metrics = record s.metrics { misses = inc s.metrics.misses } }

  abbrev pub count_skipped : State V → State V
  count_skipped s = record s { metrics = record s.metrics { skipped = inc s.metrics.skipped } }

  abbrev pub count_stale : State V → State V
  count_stale s = record s {
    metrics = record s.metrics { stale_fills_rejected = inc s.metrics.stale_fills_rejected };
  }

  -- `get` takes out an outdated entry.
  unfoldable pub purge : ReadCache V → ℕ → String → State V
  unfolding outdated remove
  purge c now key =
      if is_some_and (outdated c now) (Map.get key c.state.entries)
      then count_expired (remove key c.state)
      else c.state

  -- What `get` answers of the entry that is left, if there is one.
  unfoldable pub answer : ℕ → String → Option (CacheEntry V) → State V → Option V × State V
  unfolding refresh_due
  answer now key none s = (none, count_miss s)
  answer now key (some e) s =
      if not (refresh_due now e)
      then (
        some e.payload,
        count_hit (record s { entries = Map.insert key (record e { accessed = now }) s.entries }),
      )
      else (none, count_miss s)

  unfoldable pub get_state : ReadCache V → ℕ → String → Option V × State V
  unfolding enabled purge answer
  get_state c now key =
      if not (enabled c.config key)
      then (none, count_skipped c.state)
      else let s = purge c now key in answer now key (Map.get key s.entries) s

  unfoldable pub get : ℕ → String → ReadCache V → Option V × ReadCache V
  unfolding get_state
  get now key c = let r = get_state c now key in (r.0, record c { state = r.1 })

  unfoldable pub invalidate_advance : ReadCache V → ReadCache V
  invalidate_advance c = record c { generation = inc c.generation }

  -- What `invalidate_model` does once it has the lock.
  unfoldable pub invalidate_clear : ReadCache V → ReadCache V
  unfolding is_strong
  invalidate_clear c =
      let s = c.state in
      let counted = record s.metrics { invalidations = inc s.metrics.invalidations } in
      record c {
        state =
            if is_strong c.config.mode
            then record {
              entries = [];
              metrics = record counted { entries = 0; estimated_bytes = 0 };
            }
            else record s { metrics = counted };
      }

  unfoldable pub invalidate_model : ReadCache V → ReadCache V
  unfolding invalidate_advance invalidate_clear
  invalidate_model c = invalidate_clear (invalidate_advance c)

  -- What `invalidate` does once it has the lock.
  unfoldable pub invalidate_remove : String → ReadCache V → ReadCache V
  unfolding remove
  invalidate_remove key c = record c { state = remove key c.state }

  unfoldable pub invalidate : String → ReadCache V → ReadCache V
  unfolding invalidate_advance invalidate_remove
  invalidate key c = invalidate_remove key (invalidate_advance c)

  -- Also what the maintenance task does at each interval.
  unfoldable pub evict_expired : ℕ → ReadCache V → ReadCache V
  unfolding reclaim
  evict_expired now c = record c { state = reclaim now c.state }

  unfoldable pub record_relational_bypass : ReadCache V → ReadCache V
  record_relational_bypass c = record c {
    state = record c.state {
      metrics = record c.state.metrics {
        relational_bypasses = inc c.state.metrics.relational_bypasses;
      };
    };
  }

module _ {V : Type 0} where
  unfoldable pub status : ReadCache V → CacheStatus
  unfolding is_strong
  status c = record {
    config = c.config;
    metrics = c.state.metrics;
    effective_enabled = c.config.enabled && not c.config.multi_instance;
    consistency =
        if c.config.multi_instance
        then "bypass"
        else if is_strong c.config.mode
        then "process-local-write-invalidation"
        else "ttl-bounded-eventual";
  }

-- `to_vec` is how many bytes serde writes for a value, `none` where it fails.
module _ {V : Type 0} (to_vec : V → Option ℕ) where
  unfoldable pub weigh : String → V → ℕ
  weigh key value = elim (to_vec value) [
    | none ↦ word - 1
    | some n ↦ saturating_add (saturating_add n (len key)) 128
  ]

  -- What `set_if_generation` does not store.
  unfoldable pub skips : CacheConfig → String → ℕ → Bool
  unfolding enabled policy
  skips config key bytes =
      let p = policy config key in
      not (enabled config key)
      || nat_eq config.max_entries 0
      || is_some_and (λ n. nat_eq n 0) p.max_entries
      || ltb (min (unwrap_or config.max_bytes p.max_bytes) config.max_bytes) bytes
      || ltb (min (unwrap_or config.max_entry_bytes p.max_entry_bytes) config.max_entry_bytes) bytes

  -- The entry is stored at the time `later`, after what has expired at `now` is reclaimed.
  unfoldable pub fill_state : ReadCache V → ℕ → ℕ → String → V → State V
  unfolding weigh skips reclaim remove make_room new_entry store
  fill_state c now later key value =
      let bytes = weigh key value in
      if skips c.config key bytes
      then count_skipped c.state
      else store key (new_entry c.config key value c.generation bytes later)
          (make_room c.config key bytes (remove key (reclaim now c.state)))

  unfoldable pub set_if_generation : ℕ → ℕ → String → V → ℕ → ReadCache V → ReadCache V
  unfolding fill_state
  set_if_generation now later key value generation c = record c {
    state =
        if not (nat_eq generation c.generation)
        then count_stale c.state
        else fill_state c now later key value;
  }

  -- `generation` and then `set_if_generation`, with nothing in between.
  unfoldable pub set : ℕ → ℕ → String → V → ReadCache V → ReadCache V
  unfolding set_if_generation
  set now later key value c = set_if_generation now later key value c.generation c

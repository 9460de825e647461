-- ===== src/Cache/Operations.antt =====
-- The operations of the read cache (crates/atomo/src/cache.rs).
use atomo.Prelude.{
  string_key, ℕ, zero, suc, ◌+◌, ◌-◌, ◌*◌, ◌%◌, ◌^◌, min, String, Bool, true, false, ◌||◌, ◌&&◌,
  not, Option, none, some, leb, ltb, unwrap_or, List, [], ◌∷◌, length, if◌then◌else◌,
}
use atomo.Prelude.Map
use atomo.Prelude.Map.{Map}
use Prim.Native.String.{◌++◌ as str_append}
use text.Mathlib.Text.{starts_with}
use atomo.Cache.{CacheConfig, CacheEntry, State, expired, policy, model_of}

-- A `u64` or a `usize`.
abbrev pub word : ℕ
word = 2 ^ 64

abbrev pub inc : ℕ → ℕ
inc n = (n + 1) % word

abbrev pub saturating_add : ℕ → ℕ → ℕ
saturating_add a b = min (a + b) (word - 1)

-- `-` on a `usize`, as it wraps in a release build.
unfoldable pub wrapping_sub : ℕ → ℕ → ℕ
wrapping_sub a b = (a + (word - b)) % word

abbrev pub or_else : Option ℕ → Option ℕ → Option ℕ
or_else none b = b
or_else (some a) b = some a

abbrev pub from_secs : ℕ → ℕ
from_secs n = n * 1_000_000_000

abbrev pub opt_secs : Option ℕ → Option ℕ
opt_secs none = none
opt_secs (some n) = some (from_secs n)

module _ {V : Type 0} where
  -- What `remove` does to the account of bytes.
  abbrev pub discount : Option (CacheEntry V) → ℕ → ℕ
  discount none bytes = bytes
  discount (some old) bytes = wrapping_sub bytes old.bytes

  unfoldable pub remove : String → State V → State V
  remove key s =
      let rest = Map.remove key s.entries in
      record {
        entries = rest;
        metrics = record s.metrics {
          estimated_bytes = discount (Map.get key s.entries) s.metrics.estimated_bytes;
          entries = length rest;
        };
      }

  abbrev pub count_expired : State V → State V
  count_expired s = record s { metrics = record s.metrics { expired = inc s.metrics.expired } }

  abbrev pub count_evicted : State V → State V
  count_evicted s = record s { metrics = record s.metrics { evicted = inc s.metrics.evicted } }

  -- The keys of the entries that have expired.
  unfoldable pub expired_keys : ℕ → Map String (CacheEntry V) → List String
  unfolding expired
  expired_keys now [] = []
  expired_keys now ((k, e) ∷ m) =
      let rest = expired_keys now m in if expired now e then k ∷ rest else rest

  unfoldable pub reclaim_all : List String → State V → State V
  unfolding remove
  reclaim_all [] s = s
  reclaim_all (k ∷ ks) s = reclaim_all ks (count_expired (remove k s))

  unfoldable pub reclaim : ℕ → State V → State V
  unfolding expired_keys reclaim_all
  reclaim now s = reclaim_all (expired_keys now s.entries) s

  -- `min_by_key(|(_, e)| e.accessed)`: the first of the entries that were accessed the longest ago.
  unfoldable pub oldest_from : String → ℕ → Map String (CacheEntry V) → String
  oldest_from k t [] = k
  oldest_from k t ((j, e) ∷ m) =
      let this = oldest_from j e.accessed m in
      let that = oldest_from k t m in if ltb e.accessed t then this else that

  unfoldable pub oldest : Map String (CacheEntry V) → Option String
  unfolding oldest_from
  oldest [] = none
  oldest ((k, e) ∷ m) = some (oldest_from k e.accessed m)

  unfoldable pub total : Map String (CacheEntry V) → ℕ
  total [] = 0
  total ((k, e) ∷ m) = e.bytes + total m

  -- `filter(|(k, _)| k.starts_with(&model_prefix))`
  unfoldable pub of_model : String → Map String (CacheEntry V) → Map String (CacheEntry V)
  of_model prefix [] = []
  of_model prefix ((k, e) ∷ m) =
      let rest = of_model prefix m in if starts_with k prefix then (k, e) ∷ rest else rest

  -- `while full { let Some(old) = oldest else break; remove(old) }` over the entries that are looked
  -- at; the fuel is the number of entries, so that without fuel there is none to remove.
  unfoldable pub evict_while :
      (Map String (CacheEntry V) → Map String (CacheEntry V))
      → (State V → Bool)
      → ℕ
      → State V
      → State V
  unfolding oldest remove
  evict_while view full zero s = s
  evict_while view full (suc fuel) s = elim (full s) [
    | false ↦ s
    | true ↦ elim (oldest (view s.entries)) [
      | none ↦ s
      | some old ↦ evict_while view full fuel (count_evicted (remove old s))
    ]
  ]

  -- The condition of the loop over all entries.
  unfoldable pub over_capacity : CacheConfig → ℕ → State V → Bool
  over_capacity config bytes s =
      leb config.max_entries (length s.entries)
      || ltb config.max_bytes (saturating_add s.metrics.estimated_bytes bytes)

  -- The loop over the entries of one model goes on where its `break` is not taken.
  unfoldable pub over_policy : CacheConfig → String → ℕ → State V → Bool
  unfolding policy model_of of_model total
  over_policy config key bytes s =
      let p = policy config key in
      let mine = of_model (str_append (model_of key) ":") s.entries in
      not (
        ltb (length mine) (unwrap_or config.max_entries p.max_entries)
        && leb (saturating_add (total mine) bytes) (unwrap_or config.max_bytes p.max_bytes))

  unfoldable pub make_room : CacheConfig → String → ℕ → State V → State V
  unfolding evict_while over_capacity over_policy model_of of_model
  make_room config key bytes s =
      let s' = evict_while (λ m. m) (over_capacity config bytes) (length s.entries) s in
      evict_while (of_model (str_append (model_of key) ":")) (over_policy config key bytes)
        (length s'.entries) s'

  unfoldable pub new_entry : CacheConfig → String → V → ℕ → ℕ → ℕ → CacheEntry V
  unfolding policy
  new_entry config key value generation bytes now =
      let p = policy config key in
      record {
        generation = generation;
        payload = value;
        inserted = now;
        accessed = now;
        bytes = bytes;
        ttl = from_secs (unwrap_or config.ttl_secs p.ttl_secs);
        tti = opt_secs (or_else p.tti_secs config.tti_secs);
        refresh = opt_secs (or_else p.refresh_after_secs config.refresh_after_secs);
      }

  -- `entries.insert`, with the accounts.
  unfoldable pub store : String → CacheEntry V → State V → State V
  store key e s =
      let entries = Map.insert key e s.entries in
      record {
        entries = entries;
        metrics = record s.metrics {
          estimated_bytes = (s.metrics.estimated_bytes + e.bytes) % word;
          entries = length entries;
        };
      }

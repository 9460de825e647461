-- ===== src/Cache.antt =====
-- The configuration, the entries and the state of the read cache (crates/atomo/src/cache.rs).
pub mod Operations
pub mod Methods
pub mod Accounts
pub mod Eviction
pub mod Validity
pub mod Calls
pub mod Lookup
pub mod Coherence
use atomo.Prelude.{
  string_key, ℕ, ◌-◌, ◌+◌, ◌*◌, ◌%◌, ◌^◌, min, String, Bool, true, false, ◌||◌, ◌&&◌, not, Option,
  none, some, leb, unwrap_or, is_some_and, [], List,
}
use atomo.Prelude.Map.{Map, get}
use Prim.Native.String.{slice, len, ◌++◌ as str_append}
use text.Mathlib.Text.{find?}

pub data CacheMode : Type 0 where
  strong eventual : CacheMode

unfoldable pub is_strong : CacheMode → Bool
is_strong strong = true
is_strong eventual = false

pub record CachePolicyOverride : Type 0 where
  pub enabled : Option Bool
  pub ttl_secs : Option ℕ
  pub tti_secs : Option ℕ
  pub refresh_after_secs : Option ℕ
  pub max_entry_bytes : Option ℕ
  pub max_entries : Option ℕ
  pub max_bytes : Option ℕ

pub record CacheConfig : Type 0 where
  pub enabled : Bool
  pub mode : CacheMode
  pub ttl_secs : ℕ
  pub tti_secs : Option ℕ
  pub cleanup_interval_secs : ℕ
  pub max_entries : ℕ
  pub max_bytes : ℕ
  pub max_entry_bytes : ℕ
  pub refresh_after_secs : Option ℕ
  pub multi_instance : Bool
  pub models : Map String CachePolicyOverride

abbrev pub default_policy : CachePolicyOverride
default_policy = record {
  enabled = none;
  ttl_secs = none;
  tti_secs = none;
  refresh_after_secs = none;
  max_entry_bytes = none;
  max_entries = none;
  max_bytes = none;
}

abbrev pub default : CacheConfig
default = record {
  enabled = true;
  mode = strong;
  ttl_secs = 60;
  tti_secs = none;
  cleanup_interval_secs = 30;
  max_entries = 10_000;
  max_bytes = 64 * 1024 * 1024;
  max_entry_bytes = 1024 * 1024;
  refresh_after_secs = none;
  multi_instance = false;
  models = [];
}

-- `true` is `Ok(())`.
abbrev pub validate : CacheConfig → Bool
validate c = leb 1 c.cleanup_interval_secs && leb c.cleanup_interval_secs 86_400

-- An `Instant` and a `Duration` are counts of nanoseconds; `-` on ℕ is `duration_since`, which stops
-- at zero.
pub record CacheEntry (V : Type 0) : Type 0 where
  pub generation : ℕ
  pub payload : V
  pub inserted : ℕ
  pub accessed : ℕ
  pub bytes : ℕ
  pub ttl : ℕ
  pub tti : Option ℕ
  pub refresh : Option ℕ

pub record CacheMetrics : Type 0 where
  pub relational_bypasses : ℕ
  pub hits : ℕ
  pub misses : ℕ
  pub expired : ℕ
  pub evicted : ℕ
  pub skipped : ℕ
  pub stale_fills_rejected : ℕ
  pub invalidations : ℕ
  pub entries : ℕ
  pub estimated_bytes : ℕ

pub record State (V : Type 0) : Type 0 where
  pub entries : Map String (CacheEntry V)
  pub metrics : CacheMetrics

pub record CacheStatus : Type 0 where
  pub config : CacheConfig
  pub metrics : CacheMetrics
  pub effective_enabled : Bool
  pub consistency : String

-- `Inner`, less the fill locks and the maintenance task.
pub record ReadCache (V : Type 0) : Type 0 where
  pub generation : ℕ
  pub state : State V
  pub config : CacheConfig

module _ {V : Type 0} where
  unfoldable pub expired : ℕ → CacheEntry V → Bool
  expired now e =
      leb e.ttl (now - e.inserted) || is_some_and (λ tti. leb tti (now - e.accessed)) e.tti

  -- The two tests of `CacheEntry::refresh`: a refresh is due.
  unfoldable pub refresh_due : ℕ → CacheEntry V → Bool
  refresh_due now e = is_some_and (λ r. leb r (now - e.inserted)) e.refresh

abbrev pub default_metrics : CacheMetrics
default_metrics = record {
  relational_bypasses = 0;
  hits = 0;
  misses = 0;
  expired = 0;
  evicted = 0;
  skipped = 0;
  stale_fills_rejected = 0;
  invalidations = 0;
  entries = 0;
  estimated_bytes = 0;
}

-- A configuration that is not valid makes a cache that is bypassed.
unfoldable pub checked : CacheConfig → CacheConfig
checked c = elim (validate c) [
  | true ↦ c
  | false ↦ record c { enabled = false; cleanup_interval_secs = 30 }
]

module _ {V : Type 0} where
  unfoldable pub with_config : CacheConfig → ReadCache V
  unfolding checked
  with_config c = record {
    generation = 0;
    state = record { entries = []; metrics = default_metrics };
    config = checked c;
  }

-- `key.split(':').next().unwrap_or(key)`
unfoldable pub model_of : String → String
model_of key = elim (find? key ":") [ none ↦ key | some i ↦ slice key 0 i ]

unfoldable pub policy : CacheConfig → String → CachePolicyOverride
unfolding model_of
policy c key = unwrap_or default_policy (get (model_of key) c.models)

unfoldable pub enabled : CacheConfig → String → Bool
unfolding policy
enabled c key = c.enabled && not c.multi_instance && unwrap_or true (policy c key).enabled

-- `ReadCache::key`
unfoldable pub key_of : String → String → String
key_of model query_hash = str_append model (str_append ":" query_hash)

-- ===== src/Cache/Coherence.antt =====
-- Readers and writers that share a database and its read cache, in any interleaving
-- (crates/atomo/src/client.rs with cache.rs). A reader of find_many, find_one or count takes the
-- generation, queries the database, and fills the cache under the generation it took; a writer commits
-- and then calls `invalidate_model`, whose two steps are calls of their own. The database is what it
-- answers to the query of each key; `behind` says that a commit is not yet followed by an advance.
pub mod Marks
pub mod Safety
pub mod Freshness
use atomo.Prelude.{ℕ, suc, String, Bool, true, false, Option, none, some, List, [], ◌∷◌, get_elem?}
use atomo.Cache.{ReadCache, CacheConfig, with_config}
use atomo.Cache.Methods.{
  get, set_if_generation, invalidate_advance, invalidate_clear, invalidate_remove, evict_expired,
}

pub record World (V : Type 0) : Type 0 where
  pub cache : ReadCache V
  pub database : String → V
  pub behind : Bool
  pub started : List (String × ℕ)
  pub fetched : List (String × ℕ × V)

-- A reader that starts takes the place 0 in its list.
pub data Action (V : Type 0) : Type 0 where
  starts : String → Action V
  fetches : ℕ → Action V
  fills : ℕ → ℕ → ℕ → Action V
  commits : (String → V) → Action V
  advances : Action V
  clears : Action V
  reads : ℕ → String → Action V
  removes : String → Action V
  sweeps : ℕ → Action V

module _ {V : Type 0} where
  -- The query of a reader that has taken the generation.
  abbrev pub fetch : Option (String × ℕ) → World V → World V
  fetch none w = w
  fetch (some (key, generation)) w = record w {
    fetched = (key, generation, w.database key) ∷ w.fetched;
  }

module _ {V : Type 0} (to_vec : V → Option ℕ) where
  abbrev pub fill : ℕ → ℕ → Option (String × ℕ × V) → World V → World V
  fill now later none w = w
  fill now later (some (key, generation, value)) w = record w {
    cache = set_if_generation to_vec now later key value generation w.cache;
  }

  unfoldable pub act : Action V → World V → World V
  unfolding set_if_generation get invalidate_advance invalidate_clear invalidate_remove
      evict_expired
  act (starts key) w = record w { started = (key, w.cache.generation) ∷ w.started }
  act (fetches i) w = fetch (get_elem? w.started i) w
  act (fills now later i) w = fill now later (get_elem? w.fetched i) w
  act (commits database) w = record w { database = database; behind = true }
  act advances w = record w { cache = invalidate_advance w.cache; behind = false }
  act clears w = record w { cache = invalidate_clear w.cache }
  act (reads now key) w = record w { cache = (get now key w.cache).1 }
  act (removes key) w = record w { cache = invalidate_remove key w.cache }
  act (sweeps now) w = record w { cache = evict_expired now w.cache }

  unfoldable pub run : List (Action V) → World V → World V
  unfolding act
  run [] w = w
  run (a ∷ rest) w = run rest (act a w)

module _ {V : Type 0} where
  unfoldable pub start : CacheConfig → (String → V) → World V
  unfolding with_config
  start config database = record {
    cache = with_config config;
    database = database;
    behind = false;
    started = [];
    fetched = [];
  }

  -- How often the generation is advanced.
  unfoldable pub advance_count : List (Action V) → ℕ
  advance_count [] = 0
  advance_count (advances ∷ rest) = suc (advance_count rest)
  advance_count (_ ∷ rest) = advance_count rest

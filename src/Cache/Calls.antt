-- ===== src/Cache/Calls.antt =====
-- What is called on a read cache, in any order: a method is one call, but for the invalidations, which
-- advance the generation before they wait for the lock (crates/atomo/src/cache.rs).
pub mod Limits
use atomo.Prelude.{ℕ, String, Option, List, [], ◌∷◌}
use atomo.Cache.{ReadCache}
use atomo.Cache.Methods.{
  get, set_if_generation, invalidate_advance, invalidate_clear, invalidate_remove, evict_expired,
  record_relational_bypass,
}

pub data Call (V : Type 0) : Type 0 where
  gets : ℕ → String → Call V
  fills : ℕ → ℕ → String → V → ℕ → Call V
  advances : Call V
  clears : Call V
  removes : String → Call V
  sweeps : ℕ → Call V
  bypasses : Call V

module _ {V : Type 0} (to_vec : V → Option ℕ) where
  unfoldable pub step : Call V → ReadCache V → ReadCache V
  unfolding get set_if_generation invalidate_advance invalidate_clear invalidate_remove
      evict_expired record_relational_bypass
  step (gets now key) c = (get now key c).1
  step (fills now later key value generation) c =
      set_if_generation to_vec now later key value generation c
  step advances c = invalidate_advance c
  step clears c = invalidate_clear c
  step (removes key) c = invalidate_remove key c
  step (sweeps now) c = evict_expired now c
  step bypasses c = record_relational_bypass c

  unfoldable pub run : List (Call V) → ReadCache V → ReadCache V
  unfolding step
  run [] c = c
  run (a ∷ rest) c = run rest (step a c)

-- ===== src/Cache/Accounts.antt =====
-- The accounts of the read cache: what the entries weigh, before and after the operations on them
-- (crates/atomo/src/cache.rs).
use atomo.Prelude.{
  string_key, ℕ, ◌+◌, ◌<◌, String, Option, none, some, [], ◌∷◌, ◌≡◌, refl, arith, eq_iff,
}
use atomo.Prelude.Map
use atomo.Prelude.Map.{Map}
use atomo.Prelude.Map.Distinct.{IsDistinct, remove_absent}
use atomo.Cache.{CacheEntry}
use atomo.Cache.Operations.{total, word, wrapping_sub}

module _ {V : Type 0} where
  abbrev pub bytes_of : Option (CacheEntry V) → ℕ
  bytes_of none = 0
  bytes_of (some e) = e.bytes

  -- What an entry that is removed weighed is what the total is lighter by.
  pub total-remove :
      (k : String) (m : Map String (CacheEntry V))
      → IsDistinct m
      → total (Map.remove k m) + bytes_of (Map.get k m) ≡ total m
  unfolding total Map.remove Map.get IsDistinct
  total-remove k [] h = refl
  total-remove k ((j, e) ∷ m) h =
      ground (arith, eq_iff j k, total-remove k m h.1, remove_absent k m)

  pub total-insert :
      (k : String) (e : CacheEntry V) (m : Map String (CacheEntry V))
      → total (Map.insert k e m) + bytes_of (Map.get k m) ≡ total m + e.bytes
  unfolding total Map.insert Map.get
  total-insert k e [] = omega arith
  total-insert k e ((j, x) ∷ m) = ground (arith, total-insert k e m)

-- Where no more is taken off than there is, `-` does not wrap.
pub wrapping_sub_lem : (a b c : ℕ) → c + b ≡ a → a < word → wrapping_sub a b ≡ c
unfolding wrapping_sub
wrapping_sub_lem a b c h small = omega arith

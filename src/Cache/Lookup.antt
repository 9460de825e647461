-- ===== src/Cache/Lookup.antt =====
-- What a read of the cache answers, and what the methods leave of an entry
-- (crates/atomo/src/cache.rs).
pub mod Fills
use atomo.Prelude.{
  string_key, ℕ, ◌-◌, ◌<◌, String, Bool, true, false, not, ◌||◌, ◌&&◌, Option, none, some, List, [],
  ◌∷◌, length, ◌≡◌, refl, sym, ap, ◌∙◌, arith, if◌then◌else◌, nat_eq, is_some_and, leb, Bool-cases,
  Option-cases, inl, inr, nat_eq_iff, eq_iff, ◌⊎◌, subst,
}
use atomo.Prelude.Map
use atomo.Prelude.Map.{Map, get-remove, get-insert, get_of_remove}
use atomo.Cache.{
  CacheConfig, CacheEntry, State, ReadCache, expired, is_strong, enabled, refresh_due,
}
use atomo.Cache.Operations.{
  remove, reclaim, reclaim_all, expired_keys, evict_while, make_room, store, new_entry,
  count_expired, count_evicted, over_capacity, over_policy, of_model,
}
use atomo.Cache.Eviction.{reclaim_all-keeps, evict_while-keeps}
use atomo.Cache.Methods.{
  outdated, purge, answer, get_state, get, fill_state, set_if_generation, weigh, skips,
}

module _ {V : Type 0} where
  abbrev pub entry : String → State V → Option (CacheEntry V)
  entry key s = Map.get key s.entries

  -- What a cache shows of an entry: its value, while it is neither outdated nor due for a refresh.
  unfoldable pub visible : ReadCache V → ℕ → Option (CacheEntry V) → Option V
  unfolding outdated refresh_due
  visible c now none = none
  visible c now (some e) = if outdated c now e || refresh_due now e then none else some e.payload

  purge_lem :
      (c : ReadCache V) (now : ℕ) (key : String) (o : Option (CacheEntry V))
      → entry key c.state ≡ o
      → (answer now key (entry key (purge c now key)) (purge c now key)).0 ≡ visible c now o
  unfolding purge remove answer visible
  purge_lem c now key none h = ground (arith, h)
  purge_lem c now key (some e) h =
      ground (arith, h, get-remove key key c.state.entries, eq_iff key key)

  -- A read answers what is visible of the entry of its key, where the cache is enabled for it.
  pub get_lem :
      (now : ℕ) (key : String) (c : ReadCache V)
      → (get now key c).0
        ≡ (if enabled c.config key then visible c now (entry key c.state) else none)
  unfolding get get_state
  get_lem now key c = elim (Bool-cases (enabled c.config key)) [
    | inl on ↦ rw on (purge_lem c now key (entry key c.state) refl)
    | inr off ↦ rw off refl
  ]

  -- The entry of a key is as it was, or is gone.
  abbrev pub Kept : String → Option (CacheEntry V) → State V → Type 0
  Kept key o s = (entry key s ≡ o) ⊎ (entry key s ≡ none)

  pub remove-Kept :
      (key : String) (o : Option (CacheEntry V)) (k : String) (s : State V)
      → Kept key o s
      → Kept key o (remove k s)
  unfolding remove
  remove-Kept key o k s h = ground (arith, get-remove k key s.entries)

  pub reclaim-Kept :
      (now : ℕ) (key : String) (o : Option (CacheEntry V)) (s : State V)
      → Kept key o s
      → Kept key o (reclaim now s)
  unfolding reclaim
  reclaim-Kept now key o s h =
      reclaim_all-keeps (Kept key o) (remove-Kept key o) (expired_keys now s.entries) s h

  pub make_room-Kept :
      (config : CacheConfig) (k : String) (bytes : ℕ) (key : String) (o : Option (CacheEntry V))
      (s : State V)
      → Kept key o s
      → Kept key o (make_room config k bytes s)
  unfolding make_room
  make_room-Kept config k bytes key o s h =
      evict_while-keeps (of_model _) (over_policy config k bytes) (Kept key o) (remove-Kept key o) _
        _
        (evict_while-keeps (λ m. m) (over_capacity config bytes) (Kept key o) (remove-Kept key o) _
          s h)

-- ===== src/Cache/Validity/Touching.antt =====
-- Reads and stores keep the accounts of the read cache (crates/atomo/src/cache.rs).
use atomo.Prelude.{
  string_key, ℕ, ◌-◌, ◌<◌, String, Option, none, some, ◌≡◌, refl, arith, Bool-cases, inl, inr,
}
use atomo.Prelude.Map
use atomo.Prelude.Map.{Map, get-remove, length-insert_there}
use atomo.Prelude.Map.Distinct.{insert-IsDistinct, length-insert_absent}
use atomo.Cache.{CacheConfig, CacheEntry, State, ReadCache, refresh_due, enabled}
use atomo.Cache.Operations.{total, word, store}
use atomo.Cache.Accounts.{total-insert}
use atomo.Cache.Methods.{purge, answer, get_state}
use atomo.Cache.Validity.{IsValid, HasRoom, remove-IsValid}

module _ {V : Type 0} (config : CacheConfig) (bounded : config.max_bytes < word - 1) where
  purge-IsValid :
      (c : ReadCache V) (now : ℕ) (key : String)
      → IsValid config c.state
      → IsValid config (purge c now key)
  unfolding purge
  purge-IsValid c now key h = ground (arith, h, remove-IsValid config bounded key c.state h)

  total-insert_light :
      (key : String) (x y : CacheEntry V) (s : State V)
      → Map.get key s.entries ≡ some x
      → y.bytes ≡ x.bytes
      → total (Map.insert key y s.entries) ≡ total s.entries
  total-insert_light key x y s there same =
      ground (arith, total-insert key y s.entries, there, same)

  touch-IsValid :
      (now : ℕ) (key : String) (x : CacheEntry V) (s : State V)
      → Map.get key s.entries ≡ some x
      → IsValid config s
      → IsValid config
          (record s { entries = Map.insert key (record x { accessed = now }) s.entries })
  touch-IsValid now key x s there h =
      let y = record x { accessed = now } in
      let same_length = length-insert_there key y s.entries there in
      let same_total = total-insert_light key x y s there refl in
      record {
        distinct = insert-IsDistinct key y s.entries h.distinct;
        counted = omega (arith, h.counted, same_length);
        weighed = omega (arith, h.weighed, same_total);
        few = omega (arith, h.few, same_length);
        light = omega (arith, h.light, same_total);
      }

  pub recount-IsValid :
      (s : State V) (hits misses skipped stale : ℕ)
      → IsValid config s
      → IsValid config (record s {
        metrics = record s.metrics {
          hits = hits;
          misses = misses;
          skipped = skipped;
          stale_fills_rejected = stale;
        };
      })
  recount-IsValid s hits misses skipped stale h = record {
    distinct = h.distinct;
    counted = h.counted;
    weighed = h.weighed;
    few = h.few;
    light = h.light;
  }

  answer-IsValid :
      (now : ℕ) (key : String) (o : Option (CacheEntry V)) (s : State V)
      → Map.get key s.entries ≡ o
      → IsValid config s
      → IsValid config (answer now key o s).1
  unfolding answer
  answer-IsValid now key none s e h = recount-IsValid s _ _ _ _ h
  answer-IsValid now key (some x) s e h = elim (Bool-cases (refresh_due now x)) [
    | inl due ↦ rw due (recount-IsValid s _ _ _ _ h)
    | inr fresh ↦ rw fresh (
        recount-IsValid
          (record s { entries = Map.insert key (record x { accessed = now }) s.entries }) _ _ _ _
          (touch-IsValid now key x s e h))
  ]

  pub get_state-IsValid :
      (c : ReadCache V) (now : ℕ) (key : String)
      → IsValid config c.state
      → IsValid config (get_state c now key).1
  unfolding get_state
  get_state-IsValid c now key h = elim (Bool-cases (enabled c.config key)) [
    | inl on ↦ rw on (answer-IsValid now key _ _ refl (purge-IsValid c now key h))
    | inr off ↦ rw off (recount-IsValid c.state _ _ _ _ h)
  ]

  pub store-IsValid :
      (key : String) (x : CacheEntry V) (s : State V)
      → HasRoom config bounded key x.bytes s
      → IsValid config (store key x s)
  unfolding store
  store-IsValid key x s h =
      let heavier = total-insert key x s.entries in
      record {
        distinct = insert-IsDistinct key x s.entries h.valid.distinct;
        counted = refl;
        weighed = ground (arith, heavier, h.absent, h.valid.weighed, h.lighter, bounded);
        few = omega (arith, length-insert_absent key x s.entries h.absent, h.fewer);
        light = ground (arith, heavier, h.absent, h.lighter);
      }

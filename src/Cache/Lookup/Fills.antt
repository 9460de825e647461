-- ===== src/Cache/Lookup/Fills.antt =====
-- What is read after a fill (crates/atomo/src/cache.rs).
use atomo.Prelude.{
  string_key, ℕ, String, true, false, Option, none, some, ◌≡◌, ◌≢◌, refl, sym, ◌∙◌, arith, nat_eq,
  Bool-cases, inl, inr, nat_eq_iff, eq_iff, ◌⊎◌,
}
use atomo.Prelude.Map.{get-insert}
use atomo.Cache.{CacheConfig, CacheEntry, State, ReadCache, expired, enabled, refresh_due}
use atomo.Cache.Operations.{remove, reclaim, make_room, store, new_entry}
use atomo.Cache.Methods.{outdated, get, fill_state, set_if_generation, set, weigh, skips}
use atomo.Cache.Lookup.{entry, visible, get_lem, Kept, reclaim-Kept, make_room-Kept, remove-Kept}

module _ {V : Type 0} (to_vec : V → Option ℕ) where
  -- The entry that a fill stores.
  abbrev pub filled : ReadCache V → ℕ → String → V → CacheEntry V
  filled c later key value =
      new_entry c.config key value c.generation (weigh to_vec key value) later

  pub entry-fill :
      (now later : ℕ) (key : String) (value : V) (c : ReadCache V)
      → skips to_vec c.config key (weigh to_vec key value) ≡ false
      → entry key (fill_state to_vec c now later key value) ≡ some (filled c later key value)
  unfolding fill_state store
  entry-fill now later key value c kept = rw kept (
      ground (
        arith,
        get-insert key key (filled c later key value)
            (make_room c.config key (weigh to_vec key value)
              (remove key (reclaim now c.state))).entries,
        eq_iff key key,
      ))

  pub entry-fill_other :
      (now later : ℕ) (key j : String) (value : V) (c : ReadCache V)
      → j ≢ key
      → Kept j (entry j c.state) (fill_state to_vec c now later key value)
  unfolding fill_state store
  entry-fill_other now later key j value c other =
      let bytes = weigh to_vec key value in
      let o = entry j c.state in
      let s0 = reclaim now c.state in
      let s = make_room c.config key bytes (remove key s0) in
      let kept =
        make_room-Kept c.config key bytes j o (remove key s0)
          (remove-Kept j o key s0 (reclaim-Kept now j o c.state (inl refl))) in
      elim (Bool-cases (skips to_vec c.config key bytes)) [
        | inl skipped ↦ rw skipped (inl refl)
        | inr stores ↦ rw stores (
            ground
              (arith, kept, get-insert key j (filled c later key value) s.entries, eq_iff key j))
      ]

  pub fill_skipped :
      (now later : ℕ) (key j : String) (value : V) (c : ReadCache V)
      → skips to_vec c.config key (weigh to_vec key value) ≡ true
      → entry j (fill_state to_vec c now later key value) ≡ entry j c.state
  unfolding fill_state
  fill_skipped now later key j value c skipped = rw skipped refl

  pub set_stale :
      (now later : ℕ) (key j : String) (value : V) (generation : ℕ) (c : ReadCache V)
      → nat_eq generation c.generation ≡ false
      → entry j (set_if_generation to_vec now later key value generation c).state ≡ entry j c.state
  unfolding set_if_generation
  set_stale now later key j value generation c stale = rw stale refl

  pub set_current :
      (now later : ℕ) (key : String) (value : V) (generation : ℕ) (c : ReadCache V)
      → nat_eq generation c.generation ≡ true
      → (set_if_generation to_vec now later key value generation c).state
        ≡ fill_state to_vec c now later key value
  unfolding set_if_generation
  set_current now later key value generation c current = rw current refl

  set_fills :
      (now later : ℕ) (key : String) (value : V) (c : ReadCache V)
      → (set_if_generation to_vec now later key value c.generation c).state
        ≡ fill_state to_vec c now later key value
  unfolding set_if_generation
  set_fills now later key value c = ground (arith, nat_eq_iff c.generation c.generation)

  skips_enabled :
      (config : CacheConfig) (key : String) (bytes : ℕ)
      → skips to_vec config key bytes ≡ false
      → enabled config key ≡ true
  unfolding skips
  skips_enabled config key bytes h = ground (arith, h)

  -- A value that the cache does not skip is read after it was set, as long as it has not expired and
  -- no refresh is due.
  pub get-set :
      (now later soon : ℕ) (key : String) (value : V) (c : ReadCache V)
      → skips to_vec c.config key (weigh to_vec key value) ≡ false
      → expired soon (filled c later key value) ≡ false
      → refresh_due soon (filled c later key value) ≡ false
      → (get soon key (set to_vec now later key value c)).0 ≡ some value
  unfolding set visible outdated
  get-set now later soon key value c kept lives fresh =
      get_lem soon key (set to_vec now later key value c)
      ∙ ground (
        arith,
        skips_enabled c.config key (weigh to_vec key value) kept,
        set_fills now later key value c,
        entry-fill now later key value c kept,
        nat_eq_iff c.generation c.generation,
        lives,
        fresh,
      )

  -- What is read of a key whose entry is as it was, or is gone.
  read-Kept :
      (now : ℕ) (j : String) (c : ReadCache V) (s : State V)
      → Kept j (entry j c.state) s
      → ((get now j (record c { state = s })).0 ≡ (get now j c).0)
        ⊎ ((get now j (record c { state = s })).0 ≡ none)
  unfolding visible outdated
  read-Kept now j c s (inl same) =
      inl (get_lem now j (record c { state = s }) ∙ rw same (sym (get_lem now j c)))
  read-Kept now j c s (inr gone) =
      inr (ground (arith, gone, get_lem now j (record c { state = s })))

  entry-set_other :
      (now later : ℕ) (key j : String) (value : V) (generation : ℕ) (c : ReadCache V)
      → j ≢ key
      → Kept j (entry j c.state) (set_if_generation to_vec now later key value generation c).state
  unfolding set_if_generation
  entry-set_other now later key j value generation c other =
      elim (Bool-cases (nat_eq generation c.generation)) [
        | inl current ↦ rw current (entry-fill_other now later key j value c other)
        | inr stale ↦ rw stale (inl refl)
      ]

  -- A fill of one key changes what is read of another only by taking it out.
  pub get-set_other :
      (now later soon : ℕ) (key j : String) (value : V) (generation : ℕ) (c : ReadCache V)
      → j ≢ key
      → let c' = set_if_generation to_vec now later key value generation c in
        ((get soon j c').0 ≡ (get soon j c).0) ⊎ ((get soon j c').0 ≡ none)
  unfolding set_if_generation
  get-set_other now later soon key j value generation c other =
      read-Kept soon j c _ (entry-set_other now later key j value generation c other)

-- ===== src/Cache/Coherence/Marks.antt =====
-- What the methods leave of the value and the generation of an entry (crates/atomo/src/cache.rs).
use atomo.Prelude.{
  str_eq, string_key, ℕ, String, Option, none, some, ◌≡◌, refl, ap, arith, nat_eq, is_some_and,
  Bool-cases, inl, inr, nat_eq_iff, eq_iff, ◌⊎◌,
}
use atomo.Prelude.Map
use atomo.Prelude.Map.{get-remove, get-insert}
use atomo.Cache.{CacheEntry, State, ReadCache, is_strong, enabled}
use atomo.Cache.Operations.{remove, reclaim, new_entry}
use atomo.Cache.Methods.{
  outdated, purge, answer, get_state, get, fill_state, set_if_generation, weigh, skips,
  invalidate_clear,
}
use atomo.Cache.Lookup.Fills.{entry-fill, entry-fill_other, fill_skipped, set_stale, set_current}
use atomo.Cache.Lookup.{entry, Kept, reclaim-Kept, remove-Kept}

module _ {V : Type 0} where
  abbrev pub mark : Option (CacheEntry V) → Option (V × ℕ)
  mark none = none
  mark (some e) = some (e.payload, e.generation)

  -- The entry of a key is gone, or has the value and the generation that it had.
  abbrev pub Marked : String → Option (CacheEntry V) → State V → Type 0
  Marked key o s = (mark (entry key s) ≡ mark o) ⊎ (mark (entry key s) ≡ none)

  Kept-Marked :
      (key : String) (o : Option (CacheEntry V)) (s : State V) → Kept key o s → Marked key o s
  Kept-Marked key o s (inl same) = inl (ap mark same)
  Kept-Marked key o s (inr gone) = inr (ap mark gone)

  pub remove-Marked : (k key : String) (s : State V) → Marked key (entry key s) (remove k s)
  remove-Marked k key s =
      Kept-Marked key (entry key s) (remove k s) (remove-Kept key (entry key s) k s (inl refl))

  pub reclaim-Marked :
      (now : ℕ) (key : String) (s : State V) → Marked key (entry key s) (reclaim now s)
  reclaim-Marked now key s =
      Kept-Marked key (entry key s) (reclaim now s)
        (reclaim-Kept now key (entry key s) s (inl refl))

  pub clear-Marked :
      (key : String) (c : ReadCache V) → Marked key (entry key c.state) (invalidate_clear c).state
  unfolding invalidate_clear Map.get
  clear-Marked key c = elim (Bool-cases (is_strong c.config.mode)) [
    | inl strong_mode ↦ rw strong_mode (inr refl)
    | inr weak ↦ rw weak (inl refl)
  ]

  purge-Kept :
      (c : ReadCache V) (now : ℕ) (k key : String) → Kept key (entry key c.state) (purge c now k)
  unfolding purge
  purge-Kept c now k key = elim (Bool-cases (is_some_and (outdated c now) (entry k c.state))) [
    | inl old ↦ rw old (remove-Kept key (entry key c.state) k c.state (inl refl))
    | inr fine ↦ rw fine (inl refl)
  ]

  answer-Marked :
      (now : ℕ) (k key : String) (o : Option (CacheEntry V)) (s : State V)
      → entry k s ≡ o
      → mark (entry key (answer now k o s).1) ≡ mark (entry key s)
  unfolding answer
  answer-Marked now k key none s h = refl
  answer-Marked now k key (some e) s h =
      ground (arith, h, get-insert k key (record e { accessed = now }) s.entries, eq_iff k key)

  pub get-Marked :
      (now : ℕ) (k key : String) (c : ReadCache V)
      → Marked key (entry key c.state) (get now k c).1.state
  unfolding get get_state
  get-Marked now k key c = elim (Bool-cases (enabled c.config k)) [
    | inl on ↦
        rw (on, answer-Marked now k key (entry k (purge c now k)) (purge c now k) refl)
          (Kept-Marked key (entry key c.state) (purge c now k) (purge-Kept c now k key))
    | inr off ↦ rw off (inl refl)
  ]

module _ {V : Type 0} (to_vec : V → Option ℕ) where
  -- A fill under the generation at hand may also leave the value that it was given.
  abbrev pub Filled : String → String → V → ReadCache V → State V → Type 0
  Filled k key value c s = (key ≡ k) × (mark (entry key s) ≡ some (value, c.generation))

  fill-Marked :
      (now later : ℕ) (k key : String) (value : V) (c : ReadCache V)
      → let s = fill_state to_vec c now later k value in
        Marked key (entry key c.state) s ⊎ Filled k key value c s
  unfolding new_entry
  fill-Marked now later k key value c =
      let s = fill_state to_vec c now later k value in
      elim (Bool-cases (str_eq key k)) [
        | inr other ↦ inl (
            Kept-Marked key (entry key c.state) s (
              entry-fill_other to_vec now later k key value c
                (λ same. ground (arith, eq_iff key k))))
        | inl same ↦ elim (Bool-cases (skips to_vec c.config k (weigh to_vec k value))) [
          | inl skipped ↦ inl (inl (ap mark (fill_skipped to_vec now later k key value c skipped)))
          | inr kept ↦
              let e = (eq_iff key k).0 same in
              inr (e, rw e (ap mark (entry-fill to_vec now later k value c kept)))
        ]
      ]

  pub set-Marked :
      (now later : ℕ) (k key : String) (value : V) (generation : ℕ) (c : ReadCache V)
      → let s = (set_if_generation to_vec now later k value generation c).state in
        Marked key (entry key c.state) s ⊎ ((generation ≡ c.generation) × Filled k key value c s)
  set-Marked now later k key value generation c =
      elim (Bool-cases (nat_eq generation c.generation)) [
        | inr stale ↦
            inl (inl (ap mark (set_stale to_vec now later k key value generation c stale)))
        | inl current ↦ rw (set_current to_vec now later k value generation c current) (
            with_generation ((nat_eq_iff generation c.generation).0 current)
              (fill-Marked now later k key value c))
      ]
    where
      with_generation : {A B G : Type 0} → G → A ⊎ B → A ⊎ (G × B)
      with_generation g (inl a) = inl a
      with_generation g (inr b) = inr (g, b)

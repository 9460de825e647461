-- ===== src/Cache/Coherence/Safety.antt =====
-- A strong cache answers what the database would, except while a commit waits for its invalidation
-- (crates/atomo/src/client.rs with cache.rs).
use atomo.Prelude.{
  string_key, ℕ, suc, ◌≤◌, ◌<◌, String, Bool, true, false, Option, none, some, get_elem?, All,
  All-get_elem?, All-mono, ◌≡◌, refl, sym, ◌∙◌, arith, inl, inr,
}
use atomo.Cache.{State, ReadCache}
use atomo.Cache.Operations.{word, inc}
use atomo.Cache.Methods.{invalidate_advance}
use atomo.Cache.Lookup.{entry}
use atomo.Cache.Coherence.{World, fetch}
use atomo.Cache.Coherence.Marks.{mark, Marked}

module _ {V : Type 0} where
  -- A value that was taken under a generation is what the database holds, if that is the generation
  -- and no commit waits for its invalidation.
  abbrev pub Current : ℕ → Bool → (String → V) → String → ℕ → V → Type 0
  Current now behind database key generation value =
      (generation ≤ now) × (generation ≡ now → behind ≡ false → value ≡ database key)

  abbrev pub InCache : (String → ℕ → V → Type 0) → State V → Type 0
  InCache P s =
      (key : String) (value : V) (generation : ℕ)
      → mark (entry key s) ≡ some (value, generation)
      → P key generation value

  pub record IsCoherent (w : World V) : Type 0 where
    pub cached : InCache (Current w.cache.generation w.behind w.database) w.cache.state
    pub fetched : All (λ p. Current w.cache.generation w.behind w.database p.0 p.1 p.2) w.fetched
    pub started : All (λ p. p.1 ≤ w.cache.generation) w.started

  pub Marked-InCache :
      (P : String → ℕ → V → Type 0) (s s' : State V)
      → ((key : String) → Marked key (entry key s) s')
      → InCache P s
      → InCache P s'
  Marked-InCache P s s' marked h key value generation e = elim (marked key) [
    | inl same ↦ h key value generation (sym same ∙ e)
    | inr gone ↦ ground (arith, gone, e)
  ]

  -- An invariant that a change of the state alone keeps, if it only takes entries out.
  pub Marked-IsCoherent :
      (w : World V) (c : ReadCache V)
      → c.generation ≡ w.cache.generation
      → ((key : String) → Marked key (entry key w.cache.state) c.state)
      → IsCoherent w
      → IsCoherent (record w { cache = c })
  Marked-IsCoherent w c same marked h = record {
    cached = rw same (
        Marked-InCache (Current w.cache.generation w.behind w.database) w.cache.state c.state marked
          h.cached);
    fetched = rw same h.fetched;
    started = rw same h.started;
  }

  pub fetch-IsCoherent :
      (w : World V) (i : ℕ) (o : Option (String × ℕ))
      → get_elem? w.started i ≡ o
      → IsCoherent w
      → IsCoherent (fetch o w)
  fetch-IsCoherent w i none e h = h
  fetch-IsCoherent w i (some (key, generation)) e h = record {
    cached = h.cached;
    fetched = (
      (
        All-get_elem? (λ (p : String × ℕ). p.1 ≤ w.cache.generation) w.started i (key, generation)
            h.started e,
        λ _ _. refl,
      ),
      h.fetched,
    );
    started = h.started;
  }

  -- What was current under a generation is of an earlier one after an advance.
  outgrown :
      (now : ℕ) (behind : Bool) (database : String → V) (key : String) (generation : ℕ) (value : V)
      → suc now < word
      → Current now behind database key generation value
      → Current (inc now) false database key generation value
  outgrown now behind database key generation value small h =
      (omega (arith, h.0, small), λ e _. absurd (omega (arith, h.0, small, e)))

  pub advance-IsCoherent :
      (w : World V)
      → suc w.cache.generation < word
      → IsCoherent w
      → IsCoherent (record w { cache = invalidate_advance w.cache; behind = false })
  unfolding invalidate_advance
  advance-IsCoherent w small h = record {
    cached = λ key value generation e.
        outgrown w.cache.generation w.behind w.database key generation value small
          (h.cached key value generation e);
    fetched =
        All-mono _ _
          (λ (p : String × ℕ × V).
            outgrown w.cache.generation w.behind w.database p.0 p.1 p.2 small)
          w.fetched h.fetched;
    started =
        All-mono _ _
          (λ (p : String × ℕ). λ (le : p.1 ≤ w.cache.generation). omega (arith, le, small))
          w.started h.started;
  }

  pub commit-IsCoherent :
      (w : World V) (database : String → V)
      → IsCoherent w
      → IsCoherent (record w { database = database; behind = true })
  commit-IsCoherent w database h = record {
    cached =
        λ key value generation e. ((h.cached key value generation e).0, λ _ b. ground (arith, b));
    fetched =
        All-mono
          (λ (p : String × ℕ × V). Current w.cache.generation w.behind w.database p.0 p.1 p.2)
          (λ (p : String × ℕ × V). Current w.cache.generation true database p.0 p.1 p.2)
          (λ p c. (c.0, λ _ b. ground (arith, b))) w.fetched h.fetched;
    started = h.started;
  }

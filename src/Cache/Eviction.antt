-- ===== src/Cache/Eviction.antt =====
-- The loops that take entries out of the read cache: what they keep, and that they end
-- (crates/atomo/src/cache.rs).
pub mod Ends
use atomo.Prelude.{
  string_key, ℕ, zero, suc, ◌≤◌, ◌<◌, String, Bool, true, false, Option, none, some, List, [], ◌∷◌,
  length, ◌≡◌, refl, sym, ap, ◌∙◌, arith, eq_iff, if◌then◌else◌, ◌⊎◌, inl, inr, Bool-cases,
  Option-cases, str_eq, subst,
}
use atomo.Prelude.Map
use atomo.Prelude.Map.{Map, get-remove, length-remove-lt, length-remove-le}
use text.Mathlib.Text.{starts_with}
use atomo.Cache.{CacheEntry, State}
use atomo.Cache.Operations.{
  remove, count_expired, count_evicted, reclaim_all, evict_while, oldest, oldest_from, of_model,
}

module _ {V : Type 0} where
  -- What is picked for eviction is an entry of those looked at.
  oldest_from-there :
      (k j : String) (t : ℕ) (e : CacheEntry V) (m : Map String (CacheEntry V))
      → oldest_from k t m ≡ j
      → Map.get j ((k, e) ∷ m) ≡ none
      → ⊥
  unfolding oldest_from Map.get
  oldest_from-there k j t e [] h absent = ground (arith, eq_iff k j)
  oldest_from-there k j t e ((i, x) ∷ m) h absent = ground (
    arith,
    eq_iff k j,
    eq_iff i j,
    oldest_from-there i j x.accessed x m,
    oldest_from-there k j t e m,
  )

  pub oldest-there :
      (j : String) (m : Map String (CacheEntry V)) → oldest m ≡ some j → Map.get j m ≡ none → ⊥
  unfolding oldest
  oldest-there j [] h absent = ground arith
  oldest-there j ((k, e) ∷ m) h absent = oldest_from-there k j e.accessed e m (ground arith) absent

  pub oldest-none : (m : Map String (CacheEntry V)) → oldest m ≡ none → m ≡ []
  unfolding oldest
  oldest-none [] h = refl
  oldest-none ((k, e) ∷ m) h = ground arith

  pub get-of_model :
      (prefix k : String) (m : Map String (CacheEntry V))
      → Map.get k m ≡ none
      → Map.get k (of_model prefix m) ≡ none
  unfolding of_model Map.get
  get-of_model prefix k [] h = refl
  get-of_model prefix k ((j, e) ∷ m) h = ground (arith, get-of_model prefix k m)

  pub reclaim_all-keeps {κ} :
      (P : State V → Type κ)
      → ((k : String) (s : State V) → P s → P (count_expired (remove k s)))
      → (ks : List String) (s : State V) → P s
      → P (reclaim_all ks s)
  unfolding reclaim_all
  reclaim_all-keeps P keep [] s h = h
  reclaim_all-keeps P keep (k ∷ ks) s h =
      reclaim_all-keeps P keep ks (count_expired (remove k s)) (keep k s h)

module _ {V : Type 0} (view : Map String (CacheEntry V) → Map String (CacheEntry V))
    (full : State V → Bool) where
  -- The loop would end here by its own tests.
  abbrev pub Settled : State V → Type 0
  Settled s = (full s ≡ false) ⊎ (view s.entries ≡ [])

  -- A round of the loop, by its outcome.
  evict_while_fits : (n : ℕ) (s : State V) → full s ≡ false → evict_while view full (suc n) s ≡ s
  unfolding evict_while
  evict_while_fits n s h = ground (arith, h)

  evict_while_empty :
      (n : ℕ) (s : State V) → oldest (view s.entries) ≡ none → evict_while view full (suc n) s ≡ s
  unfolding evict_while
  evict_while_empty n s h = ground (arith, h)

  evict_while_round :
      (n : ℕ) (s : State V) {j : String}
      → full s ≡ true
      → oldest (view s.entries) ≡ some j
      → evict_while view full (suc n) s ≡ evict_while view full n (count_evicted (remove j s))
  unfolding evict_while
  evict_while_round n s h h' = ground (arith, h, h')

  pub evict_while-keeps {κ} :
      (P : State V → Type κ)
      → ((k : String) (s : State V) → P s → P (count_evicted (remove k s)))
      → (fuel : ℕ) (s : State V) → P s
      → P (evict_while view full fuel s)
  unfolding evict_while
  evict_while-keeps P keep zero s h = h
  evict_while-keeps P keep (suc n) s h = elim (Bool-cases (full s)) [
    | inr fits ↦ subst P (sym (evict_while_fits n s fits)) h
    | inl more ↦ elim (Option-cases (oldest (view s.entries))) [
      | inl nothing ↦ subst P (sym (evict_while_empty n s nothing)) h
      | inr (j, old) ↦
          subst P (sym (evict_while_round n s more old))
            (evict_while-keeps P keep n (count_evicted (remove j s)) (keep j s h))
    ]
  ]

  module _
      (looks : (j : String) (m : Map String (CacheEntry V))
        → Map.get j m ≡ none
        → Map.get j (view m) ≡ none) where
    pick_shrinks :
        (j : String) (m : Map String (CacheEntry V))
        → oldest (view m) ≡ some j
        → length (Map.remove j m) < length m
    pick_shrinks j m h = elim (Option-cases (Map.get j m)) [
      | inl absent ↦ absurd (oldest-there j (view m) h (looks j m absent))
      | inr (e, there) ↦ length-remove-lt j m there
    ]

    settles_at : (s : State V) → (full s ≡ false) ⊎ (oldest (view s.entries) ≡ none) → Settled s
    settles_at s (inl fits) = inl fits
    settles_at s (inr nothing) = inr (oldest-none (view s.entries) nothing)

    -- The loop goes on only while there is an entry to take out, and each round takes one out.
    pub evict_while_settles :
        (fuel : ℕ) (s : State V) → length s.entries ≤ fuel → Settled (evict_while view full fuel s)
    unfolding evict_while remove
    evict_while_settles zero s enough = elim (Option-cases (oldest (view s.entries))) [
      | inl nothing ↦ settles_at s (inr nothing)
      | inr (j, h) ↦ absurd (omega (arith, pick_shrinks j s.entries h, enough))
    ]
    evict_while_settles (suc n) s enough = elim (Bool-cases (full s)) [
      | inr fits ↦ subst Settled (sym (evict_while_fits n s fits)) (settles_at s (inl fits))
      | inl more ↦ elim (Option-cases (oldest (view s.entries))) [
        | inl nothing ↦
            subst Settled (sym (evict_while_empty n s nothing)) (settles_at s (inr nothing))
        | inr (j, h) ↦ subst Settled (sym (evict_while_round n s more h)) (
            evict_while_settles n (count_evicted (remove j s))
              (omega (arith, pick_shrinks j s.entries h, enough)))
      ]
    ]

    -- More fuel than there are entries makes no difference.
    pub evict_while_enough :
        (fuel more : ℕ) (s : State V)
        → length s.entries ≤ fuel
        → fuel ≤ more
        → evict_while view full more s ≡ evict_while view full fuel s
    unfolding evict_while remove
    evict_while_enough zero zero s enough most = refl
    evict_while_enough (suc fuel) zero s enough most = absurd (omega (arith, most))
    evict_while_enough zero (suc more) s enough most =
        elim (Option-cases (oldest (view s.entries))) [
          | inl nothing ↦ evict_while_empty more s nothing
          | inr (j, h) ↦ absurd (omega (arith, pick_shrinks j s.entries h, enough))
        ]
    evict_while_enough (suc fuel) (suc more) s enough most = elim (Bool-cases (full s)) [
      | inr fits ↦ evict_while_fits more s fits ∙ sym (evict_while_fits fuel s fits)
      | inl over ↦ elim (Option-cases (oldest (view s.entries))) [
        | inl nothing ↦ evict_while_empty more s nothing ∙ sym (evict_while_empty fuel s nothing)
        | inr (j, h) ↦
            evict_while_round more s over h
            ∙ evict_while_enough fuel more (count_evicted (remove j s))
                (omega (arith, pick_shrinks j s.entries h, enough)) (omega (arith, most))
            ∙ sym (evict_while_round fuel s over h)
      ]
    ]

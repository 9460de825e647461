-- ===== src/Examples/Reads.antt =====
-- Reads through the cache (crates/atomo/src/cache.rs, crates/atomo/src/client.rs).
use atomo.Prelude.{
  string_key, ℕ, String, false, Option, none, some, List, [], ◌∷◌, ◌≡◌, refl, arith, ◌⊎◌, length,
  ◌≤◌,
}
use Prim.Native.String.{◌++◌ as str_append}
use atomo.Prelude.Map
use atomo.Cache.{
  CacheConfig, ReadCache, default, with_config, checked, is_strong, model_of, expired, refresh_due,
}
use atomo.Cache.Operations.{
  wrapping_sub, evict_while, of_model, over_capacity, over_policy, make_room, new_entry,
}
use atomo.Cache.Methods.{get, set, skips, weigh}
use atomo.Cache.Calls
use atomo.Cache.Calls.Limits.{run-IsValid}
use atomo.Cache.Validity.{IsValid}
use atomo.Cache.Lookup.Fills.{get-set}
use atomo.Cache.Eviction.Ends.{make_room_ends}
use atomo.Cache.Coherence.{
  World, Action, starts, fetches, fills, commits, advances, clears, run, start, advance_count,
}
use atomo.Cache.Coherence.Freshness.{run-IsFresh}

-- Every value is written with two bytes.
abbrev to_vec : ℕ → Option ℕ
to_vec n = some 2

abbrev two_entries : CacheConfig
two_entries = record default { max_entries = 2 }

abbrev before_write : String → ℕ
before_write key = 1

abbrev after_write : String → ℕ
after_write key = 2

-- A reader that queries before a write fills the cache before the write is announced; another reads
-- after that.
abbrev race : List (Action ℕ)
race =
    starts "Task:all"
    ∷ fetches 0
    ∷ commits after_write
    ∷ fills 5 5 0
    ∷ advances
    ∷ clears
    ∷ starts "Task:all"
    ∷ fetches 0
    ∷ fills 6 6 0
    ∷ []

abbrev raced : World ℕ
raced = run to_vec race (start two_entries before_write)

run-IsFresh_example : 2 ≡ raced.database "Task:all"
unfolding run start advance_count is_strong get Map.get Map.insert Map.remove
run-IsFresh_example =
    run-IsFresh to_vec two_entries before_write race refl (omega arith) refl 7 "Task:all" 2 refl

abbrev calls : List (Calls.Call ℕ)
calls =
    Calls.fills 1 1 "Task:a" 1 0
    ∷ Calls.fills 2 2 "Task:b" 2 0
    ∷ Calls.gets 3 "Task:a"
    ∷ Calls.fills 4 4 "Task:c" 3 0
    ∷ []

run-IsValid_example :
    let c = Calls.run to_vec calls (with_config two_entries) in IsValid c.config c.state
unfolding checked
run-IsValid_example = run-IsValid to_vec two_entries (omega arith) calls

abbrev worked : ReadCache ℕ
worked = Calls.run to_vec calls (with_config two_entries)

get-set_example : (get 9 "Task:d" (set to_vec 5 5 "Task:d" 4 worked)).0 ≡ some 4
unfolding skips expired refresh_due new_entry Calls.run with_config weigh Map.get
get-set_example = get-set to_vec 5 5 9 "Task:d" 4 worked refl refl refl

-- The entry that was read last stays.
least_recent : ((get 9 "Task:a" worked).0 ≡ some 1) × ((get 9 "Task:b" worked).0 ≡ none)
unfolding get Calls.run with_config Map.get Map.insert Map.remove wrapping_sub
least_recent = (refl, refl)

make_room_ends_example :
    let s = worked.state in
    let first = λ (fuel : ℕ). evict_while (λ m. m) (over_capacity two_entries 130) fuel s in
    let s' = first (length s.entries) in
    let second = λ (fuel : ℕ).
      evict_while
        (of_model (str_append (model_of "Task:d") ":"))
        (over_policy two_entries "Task:d" 130)
        fuel
        s' in
    let r = make_room two_entries "Task:d" 130 s in
    ((over_capacity two_entries 130 s' ≡ false) ⊎ (s'.entries ≡ []))
    × ((over_policy two_entries "Task:d" 130 r ≡ false)
        ⊎ (of_model (str_append (model_of "Task:d") ":") r.entries ≡ []))
    × ((fuel : ℕ) → length s.entries ≤ fuel → first fuel ≡ s')
    × ((fuel : ℕ) → length s'.entries ≤ fuel → second fuel ≡ r)
make_room_ends_example = make_room_ends two_entries "Task:d" 130 worked.state

-- ===== src/Jobs/Rows.antt =====
-- The table seen through `UPDATE … WHERE` and `SELECT … WHERE` (crates/atomo_server/src/jobs.rs).
use atomo.Prelude.{
  String, Bool, true, false, ◌||◌, Option, none, some, List, [], ◌∷◌, ◌++◌, ◌≡◌, refl, arith,
  eq_iff, All, if◌then◌else◌,
}
use atomo.Jobs.Store.{Job, update_where, any_where, find_where, has_id}

pub update_where_none :
    (p : Job → Bool) (f : Job → Job) (js : List Job)
    → any_where p js ≡ false
    → update_where p f js ≡ js
unfolding update_where any_where
update_where_none p f [] h = refl
update_where_none p f (j ∷ js) h = ground (arith, update_where_none p f js)

pub find_where-none :
    (p : Job → Bool) (js : List Job) → any_where p js ≡ false → find_where p js ≡ none
unfolding find_where any_where
find_where-none p [] h = refl
find_where-none p (j ∷ js) h = ground (arith, find_where-none p js)

pub any_where-none :
    (p : Job → Bool) (js : List Job) → find_where p js ≡ none → any_where p js ≡ false
unfolding find_where any_where
any_where-none p [] h = refl
any_where-none p (j ∷ js) h = ground (arith, any_where-none p js)

-- An update brings in no row of a kind that it does not make.
pub any-update_where :
    (q p : Job → Bool) (f : Job → Job) (js : List Job)
    → ((j : Job) → p j ≡ true → q j ≡ false → q (f j) ≡ false)
    → any_where q js ≡ false
    → any_where q (update_where p f js) ≡ false
unfolding update_where any_where
any-update_where q p f [] keep h = refl
any-update_where q p f (j ∷ js) keep h = ground (arith, keep j, any-update_where q p f js keep)

-- An update of all rows of a kind to another kind leaves none.
pub any-update_where-All :
    (q p : Job → Bool) (f : Job → Job) (js : List Job)
    → All (λ j. q j ≡ true → p j ≡ true) js
    → ((j : Job) → p j ≡ true → q (f j) ≡ false)
    → any_where q (update_where p f js) ≡ false
unfolding update_where any_where
any-update_where-All q p f [] all gone = refl
any-update_where-All q p f (j ∷ js) all gone =
    ground (arith, all.0, gone j, any-update_where-All q p f js all.1 gone)

pub any-append :
    (q : Job → Bool) (js ks : List Job)
    → any_where q (js ++ ks) ≡ (any_where q js || any_where q ks)
unfolding any_where
any-append q [] ks = refl
any-append q (j ∷ js) ks = ground (arith, any-append q js ks)

-- What a row becomes.
abbrev pub updated : (Job → Bool) → (Job → Job) → Job → Job
updated p f j = if p j then f j else j

abbrev pub map_row : (Job → Job) → Option Job → Option Job
map_row f none = none
map_row f (some j) = some (f j)

-- An update that leaves the answers of `q` alone is seen through `SELECT … WHERE q`.
pub find-update_where :
    (q p : Job → Bool) (f : Job → Job) (js : List Job)
    → ((j : Job) → p j ≡ true → q (f j) ≡ q j)
    → find_where q (update_where p f js) ≡ map_row (updated p f) (find_where q js)
unfolding update_where find_where
find-update_where q p f [] keep = refl
find-update_where q p f (j ∷ js) keep = ground (arith, keep j, find-update_where q p f js keep)

pub find-append :
    (q : Job → Bool) (js ks : List Job) {j : Job}
    → find_where q js ≡ some j
    → find_where q (js ++ ks) ≡ some j
unfolding find_where
find-append q [] ks h = ground arith
find-append q (i ∷ js) ks {j} h = ground (arith, find-append q js ks {j = j})

pub find_holds : (q : Job → Bool) (js : List Job) {j : Job} → find_where q js ≡ some j → q j ≡ true
unfolding find_where
find_holds q [] h = ground arith
find_holds q (i ∷ js) {j} h = ground (arith, find_holds q js {j = j})

-- The primary key.
abbrev pub UniqueIds : List Job → Type 0
UniqueIds [] = Unit {0}
UniqueIds (j ∷ js) = (any_where (has_id j.id) js ≡ false) × UniqueIds js

found_id :
    (q : Job → Bool) (id : String) (js : List Job) {j : Job}
    → find_where q js ≡ some j
    → j.id ≡ id
    → any_where (has_id id) js ≡ true
unfolding find_where any_where
found_id q id [] h e = ground arith
found_id q id (i ∷ js) {j} h e = ground (arith, eq_iff i.id id, found_id q id js {j = j})

-- Two rows that are found under one id are one row.
pub find_unique :
    (q : Job → Bool) (id : String) (js : List Job) {j k : Job}
    → UniqueIds js
    → find_where q js ≡ some j
    → find_where (has_id id) js ≡ some k
    → j.id ≡ id
    → j ≡ k
unfolding find_where
find_unique q id [] u h g e = ground arith
find_unique q id (i ∷ js) {j} {k} u h g e =
    ground
      (arith, eq_iff i.id id, found_id q i.id js {j = j}, find_unique q id js {j = j} {k = k} u.1)

any-update_ids :
    (id : String) (p : Job → Bool) (f : Job → Job) (js : List Job)
    → ((j : Job) → (f j).id ≡ j.id)
    → any_where (has_id id) (update_where p f js) ≡ any_where (has_id id) js
unfolding update_where any_where
any-update_ids id p f [] keep = refl
any-update_ids id p f (j ∷ js) keep = ground (arith, keep j, any-update_ids id p f js keep)

pub update_where-UniqueIds :
    (p : Job → Bool) (f : Job → Job) (js : List Job)
    → ((j : Job) → (f j).id ≡ j.id)
    → UniqueIds js
    → UniqueIds (update_where p f js)
unfolding update_where
update_where-UniqueIds p f [] keep u = tt
update_where-UniqueIds p f (j ∷ js) keep u =
    ground (arith, keep j, any-update_ids j.id p f js keep, update_where-UniqueIds p f js keep)

pub append-UniqueIds :
    (js : List Job) (j : Job)
    → any_where (has_id j.id) js ≡ false
    → UniqueIds js
    → UniqueIds (js ++ j ∷ [])
unfolding any_where
append-UniqueIds [] j h u = (refl, tt)
append-UniqueIds (i ∷ js) j h u = ground (
  arith,
  eq_iff i.id j.id,
  eq_iff j.id i.id,
  any-append (has_id i.id) js (j ∷ []),
  append-UniqueIds js j,
)

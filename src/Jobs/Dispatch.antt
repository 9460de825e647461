-- ===== src/Jobs/Dispatch.antt =====
-- Which rows a lease picks, and in which order (crates/atomo_server/src/jobs.rs).
use atomo.Prelude.{
  length-take, ℕ, String, Bool, true, false, ◌&&◌, List, [], ◌∷◌, ◌++◌, ◌≡◌, refl, ap, arith,
  filter, take, drop, length, not, string_key, All, All-mono, min, ◌∙◌, ◌⊎◌, inl, inr, Bool-cases,
  contains, if◌then◌else◌,
}
use atomo.Prelude.Sorting.{
  sort_by, IsOrderedBy, IsTotal, sort_by-IsOrderedBy, length-sort_by, split-Perm, split-IsOrderedBy,
}
use atomo.Prelude.Int.{ℤ, ltb_ℤ, leb_ℤ, ◌≤ℤ◌, ◌<ℤ◌}
use mathlib.Core.List.{Perm}
use atomo.Jobs.Store.{JobStatus, queued, leased, succeeded, dead, Job, is_queued}
use atomo.Jobs.Methods.{order_rows, before, eligible, picked}

before-IsTotal : IsTotal before
before-IsTotal = record { total = λ a b h. ground arith; trans = λ a b c h g. ground arith }

-- Whether a status is that of a job that waits.
abbrev pub waits : JobStatus → Bool
waits queued = true
waits leased = false
waits succeeded = false
waits dead = false

-- What a lease may pick: a waiting row of one of its queues that is visible by now, and that no other
-- transaction has locked.
abbrev pub may_pick : List String → (String → Bool) → ℤ → Job → Bool
may_pick queues locked now j =
    waits j.status && (leb_ℤ j.visible_at now && (contains queues j.queue && not (locked j.id)))

-- A row of higher priority, or else of no lower one and visible no later.
abbrev pub IsAhead : Job → Job → Type 0
IsAhead a b =
    (b.priority <ℤ a.priority) ⊎ ((b.priority ≤ℤ a.priority) × (a.visible_at ≤ℤ b.visible_at))

abbrev pub InOrder : List Job → Type 0
InOrder [] = Unit
InOrder (j ∷ js) = All (IsAhead j) js × InOrder js

before-IsAhead : (a b : Job) → before a b ≡ true → IsAhead a b
before-IsAhead a b h = elim (Bool-cases (ltb_ℤ b.priority a.priority)) [
  | inl higher ↦ inl (ground (arith, higher))
  | inr level ↦ inr (ground (arith, h, level), ground (arith, h, level))
]

IsOrderedBy-InOrder : (js : List Job) → IsOrderedBy before js → InOrder js
IsOrderedBy-InOrder [] h = tt
IsOrderedBy-InOrder (j ∷ js) h = (
  All-mono (λ k. before j k ≡ true) (IsAhead j) (before-IsAhead j) js h.0,
  IsOrderedBy-InOrder js h.1,
)

-- The rows that the statement selects are those that may be picked.
selected_lem :
    (queues : List String) (locked : String → Bool) (now : ℤ) (js : List Job)
    → filter (λ j. eligible queues now j && not (locked j.id)) js
      ≡ filter (may_pick queues locked now) js
selected_lem queues locked now [] = refl
selected_lem queues locked now (j ∷ js) = rw (selects j.status) (
    ap (λ (rest : List Job). if may_pick queues locked now j then j ∷ rest else rest)
      (selected_lem queues locked now js))
  where
    selects :
        (s : JobStatus)
        → (contains queues j.queue && (is_queued s && leb_ℤ j.visible_at now) && not (locked j.id))
          ≡ (waits s && (leb_ℤ j.visible_at now && (contains queues j.queue && not (locked j.id))))
    selects queued = ground arith
    selects leased = ground arith
    selects succeeded = ground arith
    selects dead = ground arith

-- A lease splits the rows that it may pick, which are the waiting and visible rows of its queues that no
-- other transaction has locked, in two: the picked ones, of which there are as many as the capacity
-- allows, ordered by priority and then by the time from which they are visible; and the others, each of
-- which every picked row is ahead of.
pub picked_lem :
    (queues : List String) (capacity : ℕ) (locked : String → Bool) (now : ℤ) (js : List Job)
    → let ps = picked queues capacity locked now js in
      let candidates = filter (may_pick queues locked now) js in
      (others : List Job) × Perm (ps ++ others) candidates
      × (length ps ≡ min capacity (length candidates))
      × InOrder ps
      × All (λ a. All (IsAhead a) others) ps
unfolding picked order_rows
picked_lem queues capacity locked now js =
    let candidates = filter (may_pick queues locked now) js in
    let others = drop capacity (sort_by before candidates) in
    let split =
      split-IsOrderedBy before capacity (sort_by before candidates)
        (sort_by-IsOrderedBy before-IsTotal candidates) in
    rw (selected_lem queues locked now js) (
      others,
      split-Perm before capacity candidates,
      length-take capacity (sort_by before candidates)
          ∙ ap (λ l. min capacity l) (length-sort_by before candidates),
      IsOrderedBy-InOrder (take capacity (sort_by before candidates)) split.0,
      All-mono (λ a. All (λ b. before a b ≡ true) others) (λ a. All (IsAhead a) others)
          (λ a h. All-mono (λ b. before a b ≡ true) (IsAhead a) (before-IsAhead a) others h)
          (take capacity (sort_by before candidates)) split.2,
    )

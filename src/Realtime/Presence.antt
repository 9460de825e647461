-- ===== src/Realtime/Presence.antt =====
-- Per-channel membership (crates/atomo_realtime/src/presence.rs).
pub mod Membership
pub mod Snapshot
use atomo.Prelude.{
  ℕ, String, Bool, true, false, not, Option, none, some, List, [], ◌∷◌, length, contains, is_some,
  if◌then◌else◌, nat_key, string_key,
}
use atomo.Prelude.Sorting.{sort_by}
use atomo.Prelude.Map.{Map, get, insert, remove, keys, values}
use atomo.Realtime.Protocol.{ClientId}

abbrev pub Members : Type 0
Members = Map ClientId String

pub record Presence : Type 0 where
  pub channels : Map String Members

unfoldable pub new : Presence
new = record { channels = [] }

abbrev pub or_empty : Option Members → Members
or_empty none = []
or_empty (some ms) = ms

-- `join`: whether the membership is new, and the state after.
unfoldable pub join : String → ClientId → String → Presence → Bool × Presence
join channel client principal p =
    let ms = or_empty (get channel p.channels) in
    (
      not (is_some (get client ms)),
      record p { channels = insert channel (insert client principal ms) p.channels },
    )

abbrev is_empty : Members → Bool
is_empty [] = true
is_empty (_ ∷ _) = false

-- `leave` once the channel is looked up: an emptied channel is pruned.
unfoldable pub leave_from : Option Members → String → ClientId → Presence → Bool × Presence
leave_from none channel client p = (false, p)
leave_from (some ms) channel client p =
    let ms' = remove client ms in
    (
      is_some (get client ms),
      record p {
        channels =
            if is_empty ms' then remove channel p.channels else insert channel ms' p.channels;
      },
    )

unfoldable pub leave : String → ClientId → Presence → Bool × Presence
unfolding leave_from
leave channel client p = leave_from (get channel p.channels) channel client p

unfoldable pub subscribers : String → Presence → List ClientId
subscribers channel p = keys (or_empty (get channel p.channels))

-- The principals of a channel as a set.
unfoldable pub distinct : List String → List String
distinct [] = []
distinct (x ∷ xs) = let rest = distinct xs in if contains rest x then rest else x ∷ rest

-- The order on texts is Rust's `Ord`, taken as an argument.
unfoldable pub snapshot : (String → String → Bool) → String → Presence → List String
unfolding sort_by distinct
snapshot le channel p = sort_by le (distinct (values (or_empty (get channel p.channels))))

unfoldable pub channel_count : Presence → ℕ
channel_count p = length p.channels

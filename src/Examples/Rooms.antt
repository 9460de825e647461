-- ===== src/Examples/Rooms.antt =====
-- A channel and a session with two clients (crates/atomo_realtime/src/presence.rs, sessions.rs).
use atomo.Prelude.{
  String, some, [], ◌∷◌, ◌≡◌, refl, arith, contains, nat_key, string_key, nat_eq_iff,
}
use atomo.Prelude.Sorting.{IsTotal, IsOrderedBy}
use atomo.Prelude.Map.{get, insert, values}
use atomo.Realtime.Presence
use atomo.Realtime.Presence.{Presence, snapshot, subscribers, or_empty}
use atomo.Realtime.Presence.Membership.{IsPruned, IsPruned-new, join-IsPruned}
use atomo.Realtime.Presence.Snapshot.{IsDistinct, snapshot_lem}
use atomo.Realtime.Sessions
use atomo.Realtime.Sessions.{
  CoordinatorLeavePolicy, reelect, close, SessionMember, Session, Sessions, coordinator, member,
  u32_mod, admit, or_created, join_session, coordinator_of,
}
use mathlib.Core.List.{Perm}
use atomo.Realtime.Sessions.{roster}
use atomo.Realtime.Sessions.Rosters.{by_slot, entries, roster_lem}
use atomo.Realtime.Sessions.Validity.{AllValid, AllValid-new, join-AllValid}
use atomo.Realtime.Sessions.NoPanic.{Ends, leave-Ends}
use atomo.Realtime.Sessions.Roles.{Shows, leave-Shows}
use atomo.Realtime.Sessions.Slots.{HasSlots}
use atomo.Realtime.Sessions.Election.{Reelects, Closes, leave-Reelects, leave-Closes}
use atomo.Examples.Hub.{shorter}

shorter-IsTotal : IsTotal shorter
shorter-IsTotal = record { total = λ a b h. ground arith; trans = λ a b c h g. ground arith }

abbrev news : Presence
news = record { channels = ("news", (1, "alice") ∷ (2, "bob") ∷ (3, "bob") ∷ []) ∷ [] }

snapshot_lem_example :
    IsOrderedBy shorter (snapshot shorter "news" news)
    × IsDistinct (snapshot shorter "news" news)
    × ((who : String)
        → contains (snapshot shorter "news" news) who
          ≡ contains (values (or_empty (get "news" news.channels))) who)
snapshot_lem_example = snapshot_lem shorter-IsTotal "news" news

one_reader-IsPruned : IsPruned (Presence.join "news" 1 "alice" Presence.new).1
one_reader-IsPruned = join-IsPruned "news" 1 "alice" IsPruned-new

abbrev alice : SessionMember
alice = record { client_id = 1; principal_id = "alice"; slot = 0 }

abbrev bob : SessionMember
bob = record { client_id = 2; principal_id = "bob"; slot = 1 }

abbrev pair : Session
pair = record {
  order = 1 ∷ 2 ∷ [];
  members = (1, alice) ∷ (2, bob) ∷ [];
  coordinator = 1;
  next_slot = 2;
}

abbrev rooms : Sessions
rooms = record { sessions = ("room", pair) ∷ [] }

abbrev joined : Sessions
joined = (Sessions.join "room" 2 "bob" (Sessions.join "room" 1 "alice" Sessions.new).1).1

joined-AllValid : AllValid joined
joined-AllValid = join-AllValid "room" 2 "bob" (join-AllValid "room" 1 "alice" AllValid-new)

leave-Ends_example : Ends (Sessions.leave "room" 1 reelect joined)
leave-Ends_example = leave-Ends "room" 1 reelect joined-AllValid

leave-Shows_example : Shows "room" 2 rooms (Sessions.leave "room" 2 close rooms)
leave-Shows_example = leave-Shows "room" 2 close rooms

leave-Reelects_example : Reelects "room" 2 bob (Sessions.leave "room" 1 reelect rooms)
unfolding get
leave-Reelects_example = leave-Reelects "room" 1 pair rooms alice refl refl 2 [] bob refl refl refl

leave-Closes_example : Closes "room" (Sessions.leave "room" 1 close rooms)
unfolding get
leave-Closes_example = leave-Closes "room" 1 pair rooms alice refl refl 2 refl (omega arith) refl

joined_coordinator : coordinator "room" joined ≡ some 1
unfolding coordinator coordinator_of get insert Sessions.join Sessions.new or_created join_session
    admit
joined_coordinator = refl

pair-HasSlots : HasSlots pair
unfolding get
pair-HasSlots = record {
  below = λ i m h. ground (arith, nat_eq_iff 1 i, nat_eq_iff 2 i);
  apart = λ i j m k p q r.
      ground (arith, nat_eq_iff 1 i, nat_eq_iff 2 i, nat_eq_iff 1 j, nat_eq_iff 2 j);
}

roster_lem_example :
    IsOrderedBy by_slot (roster "room" rooms)
    × Perm (roster "room" rooms) (entries (get "room" rooms.sessions))
roster_lem_example = roster_lem "room" rooms

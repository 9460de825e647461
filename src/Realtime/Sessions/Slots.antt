-- ===== src/Realtime/Sessions/Slots.antt =====
-- What `join` answers, and the slots it hands out (crates/atomo_realtime/src/sessions.rs).
use atomo.Prelude.{
  suc, ◌<◌, String, true, ◌&&◌, Option, none, some, ◌≡◌, refl, arith, ◌==◌, is_some, if◌then◌else◌,
  nat_eq_iff, nat_key, string_key, eq_iff,
}
use atomo.Prelude.Map.{get, get-insert}
use atomo.Realtime.Protocol.{ClientId}
use atomo.Realtime.Sessions.{
  SessionMember, Session, Sessions, u32_mod, or_created, outcome, admit, join_session, join, member,
  member_of,
}
use atomo.Realtime.Sessions.Roles.{in_session}

members_of-or_created :
    (o : Option Session) (client i : ClientId) → get i (or_created o client).members ≡ member_of o i
unfolding or_created get
members_of-or_created none client i = refl
members_of-or_created (some s) client i = refl

module _ (name : String) (client : ClientId) (who : String) (ss : Sessions) where
  join_session_member :
      (o : Option SessionMember) (s : Session) (i : ClientId)
      → get client s.members ≡ o
      → is_some (get i (join_session o s client who).1.members)
        ≡ (if client == i then true else is_some (get i s.members))
  unfolding join_session admit
  join_session_member none s i e = ground (
    arith,
    get-insert client i (record { client_id = client; principal_id = who; slot = s.next_slot })
        s.members,
  )
  join_session_member (some m) s i e = ground (arith, nat_eq_iff client i)

  -- After `join` the client is in the session, and nobody else has come or gone in any session.
  pub in_session-join :
      (n : String) (i : ClientId)
      → in_session n i (join name client who ss).1
        ≡ (if name == n && client == i then true else in_session n i ss)
  unfolding join member
  in_session-join n i =
      let s : Session = or_created (get name ss.sessions) client in
      let s' : Session = (join_session (get client s.members) s client who).1 in
      ground (
        arith,
        eq_iff name n,
        get-insert name n s' ss.sessions,
        join_session_member (get client s.members) s i refl,
        members_of-or_created (get name ss.sessions) client i,
      )

  join_session_again :
      (m : SessionMember) (o : Option SessionMember) (s : Session)
      → o ≡ some m
      → (join_session o s client who ≡ (outcome m.slot client s, s))
  unfolding join_session
  join_session_again m none s e = cc
  join_session_again m (some k) s e = ground arith

  -- A member that joins again is answered the slot it has, and no entry of any member changes.
  pub join_again :
      (m : SessionMember)
      → member name client ss ≡ some m
      → ((join name client who ss).0.slot ≡ m.slot)
        × ((n : String) (i : ClientId) → member n i (join name client who ss).1 ≡ member n i ss)
  unfolding join member outcome
  join_again m e =
      let o : Option Session = get name ss.sessions in
      let s : Session = or_created o client in
      let known = members_of-or_created o client in
      let again = join_session_again m (get client s.members) s in
      (
        ground (arith, known client, again),
        λ n i. ground (
          arith,
          known client,
          known i,
          again,
          eq_iff name n,
          get-insert name n (join_session (get client s.members) s client who).1 ss.sessions,
        ),
      )

-- The slots of a session are below the next one, and no two members share one.
pub record HasSlots (s : Session) : Type 0 where
  pub below : (i : ClientId) (m : SessionMember) → get i s.members ≡ some m → m.slot < s.next_slot
  pub apart :
      (i j : ClientId) (m k : SessionMember)
      → get i s.members ≡ some m
      → get j s.members ≡ some k
      → m.slot ≡ k.slot
      → i ≡ j

-- In a session whose slots are different and below the next one, which is itself below the last
-- number of a `u32`, a newcomer that is no member yet gets a slot such that this is so again.
pub admit-HasSlots :
    (s : Session) (client : ClientId) (who : String)
    → get client s.members ≡ none
    → suc s.next_slot < u32_mod
    → HasSlots s
    → HasSlots (admit s client who)
unfolding admit
admit-HasSlots s client who e room v = record {
  below = λ i m p. ground (arith, v.below i m, get-insert client i entry s.members);
  apart = λ i j m k p q r. ground (
    arith,
    v.below i m,
    v.below j k,
    v.apart i j m k,
    nat_eq_iff client i,
    nat_eq_iff client j,
    get-insert client i entry s.members,
    get-insert client j entry s.members,
  );
}
  where
    entry : SessionMember
    entry = record { client_id = client; principal_id = who; slot = s.next_slot }

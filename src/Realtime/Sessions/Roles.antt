-- ===== src/Realtime/Sessions/Roles.antt =====
-- Who is in a session and who coordinates it, after `join` and `leave`
-- (crates/atomo_realtime/src/sessions.rs).
use atomo.Prelude.{
  String, Bool, true, false, ◌||◌, Option, none, some, [], ◌∷◌, ◌≡◌, refl, arith, ◌==◌, is_some,
  if◌then◌else◌, nat_key, string_key, eq_iff,
}
use atomo.Prelude.Map.{Map, get, insert, remove, get-insert, get-remove}
use atomo.Realtime.Protocol.{ClientId}
use atomo.Realtime.Sessions.{
  CoordinatorLeavePolicy, reelect, close, SessionMember, Session, Sessions, Leaving, not_member,
  panics, leaves, hand_over, coordinator_left, leave_rest, without, leave_session, leave_found,
  leave, member, new,
}

abbrev pub in_session : String → ClientId → Sessions → Bool
in_session name i ss = is_some (member name i ss)

pub member-new : (name : String) (i : ClientId) → member name i new ≡ none
unfolding member new get
member-new name i = refl

-- Rewriting one session rewrites the answers about that session.
member-insert :
    (name : String) (s : Session) (ss : Sessions) (n : String) (i : ClientId)
    → member n i (record { sessions = insert name s ss.sessions })
      ≡ (if name == n then get i s.members else member n i ss)
unfolding member
member-insert name s ss n i = ground (arith, get-insert name n s ss.sessions)

member-remove :
    (name : String) (ss : Sessions) (n : String) (i : ClientId)
    → member n i (record { sessions = remove name ss.sessions })
      ≡ (if name == n then none else member n i ss)
unfolding member
member-remove name ss n i = ground (arith, get-remove name n ss.sessions)

-- What a `leave` does to the answers about any member of any session.
abbrev pub Shows : String → ClientId → Sessions → Leaving → Type 0
Shows name client ss not_member = member name client ss ≡ none
Shows name client ss panics = Unit {0}
Shows name client ss (leaves out ss') =
    (n : String) (i : ClientId)
    → member n i ss' ≡ (
        if name == n
        then (if out.removed || client == i then none else member n i ss)
        else member n i ss)

get-without :
    (client : ClientId) (s : Session) (i : ClientId)
    → get i (without client s).members ≡ (if client == i then none else get i s.members)
get-without client s i = get-remove client i s.members

module _ (name : String) (client : ClientId) (s : Session) (ss : Sessions)
    (found : get name ss.sessions ≡ some s) where
  -- The session is stored again, without its member.
  kept_lem :
      (s' : Session) (n : String) (i : ClientId)
      → s'.members ≡ (without client s).members
      → member n i (record { sessions = insert name s' ss.sessions })
        ≡ (if name == n then (if client == i then none else member n i ss) else member n i ss)
  unfolding member
  kept_lem s' n i e =
      ground (arith, eq_iff name n, get-insert name n s' ss.sessions, get-remove client i s.members)

  hand_over-Shows :
      (o : Option (ClientId × SessionMember)) (m : SessionMember)
      → Shows name client ss (hand_over o m (without client s) name ss)
  unfolding hand_over
  hand_over-Shows none m = tt
  hand_over-Shows (some (j, _)) m =
      λ n i. kept_lem (record (without client s) { coordinator = j }) n i refl

  coordinator_left-Shows :
      (policy : CoordinatorLeavePolicy) (m : SessionMember)
      → Shows name client ss (coordinator_left policy m (without client s) name ss)
  unfolding coordinator_left
  coordinator_left-Shows reelect m = hand_over-Shows _ m
  coordinator_left-Shows close m = member-remove name ss

  leave_rest-Shows :
      (was : Bool) (ms : Map ClientId SessionMember) (policy : CoordinatorLeavePolicy)
      (m : SessionMember)
      → Shows name client ss (leave_rest was ms policy m (without client s) name ss)
  unfolding leave_rest
  leave_rest-Shows was [] policy m = member-remove name ss
  leave_rest-Shows false (x ∷ ms) policy m = λ n i. kept_lem (without client s) n i refl
  leave_rest-Shows true (x ∷ ms) policy m = coordinator_left-Shows policy m

  leave_session-Shows :
      (o : Option SessionMember) (policy : CoordinatorLeavePolicy)
      → get client s.members ≡ o
      → Shows name client ss (leave_session o s name client policy ss)
  unfolding leave_session member
  leave_session-Shows none policy e = rw found e
  leave_session-Shows (some m) policy e =
      leave_rest-Shows (s.coordinator == client) (without client s).members policy m

leave_found-Shows :
    (o : Option Session) (name : String) (client : ClientId) (policy : CoordinatorLeavePolicy)
    (ss : Sessions)
    → get name ss.sessions ≡ o
    → Shows name client ss (leave_found o name client policy ss)
unfolding leave_found member
leave_found-Shows none name client policy ss e = rw e
leave_found-Shows (some s) name client policy ss e =
    leave_session-Shows name client s ss e (get client s.members) policy refl

-- `leave` takes the client out of that session, or the whole session where it is removed; every
-- other member of every session keeps its entry, the slot included. Where the client was no member
-- nothing is done.
pub leave-Shows :
    (name : String) (client : ClientId) (policy : CoordinatorLeavePolicy) (ss : Sessions)
    → Shows name client ss (leave name client policy ss)
unfolding leave
leave-Shows name client policy ss =
    leave_found-Shows (get name ss.sessions) name client policy ss refl

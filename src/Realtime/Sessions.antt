-- ===== src/Realtime/Sessions.antt =====
-- Coordinator sessions (crates/atomo_realtime/src/sessions.rs).
pub mod Validity
pub mod NoPanic
pub mod Roles
pub mod Slots
pub mod Election
pub mod Rosters
use atomo.Prelude.{
  ℕ, ◌+◌, ◌%◌, ◌^◌, String, Bool, true, false, not, Option, none, some, List, [], ◌∷◌, ◌++◌, length,
  filter, ◌==◌, leb, if◌then◌else◌, nat_key, string_key,
}
use atomo.Prelude.Sorting.{sort_by}
use atomo.Prelude.Map.{Map, get, insert, remove, values}
use atomo.Realtime.Protocol.{ClientId}

pub data CoordinatorLeavePolicy : Type 0 where
  reelect close : CoordinatorLeavePolicy

pub record SessionMember : Type 0 where
  pub client_id : ClientId
  pub principal_id : String
  pub slot : ℕ

pub record Session : Type 0 where
  pub order : List ClientId
  pub members : Map ClientId SessionMember
  pub coordinator : ClientId
  pub next_slot : ℕ

-- `sort_by_key(|m| m.slot)`
unfoldable pub sort_by_slot : List SessionMember → List SessionMember
unfolding sort_by
sort_by_slot ms = sort_by (λ m x. leb m.slot x.slot) ms

-- `Session::roster`.
unfoldable pub session_roster : Session → List SessionMember
unfolding sort_by_slot
session_roster s = sort_by_slot (values s.members)

pub record JoinOutcome : Type 0 where
  pub slot : ℕ
  pub is_coordinator : Bool
  pub roster : List SessionMember

pub data CoordinatorChange : Type 0 where
  unchanged : CoordinatorChange
  reelected : SessionMember → CoordinatorChange
  closed : CoordinatorChange

pub record LeaveOutcome : Type 0 where
  pub member : SessionMember
  pub change : CoordinatorChange
  pub remaining : List SessionMember
  pub removed : Bool

pub record Sessions : Type 0 where
  pub sessions : Map String Session

unfoldable pub new : Sessions
new = record { sessions = [] }

abbrev pub u32_mod : ℕ
u32_mod = 2 ^ 32

-- The session that the first joiner finds (`or_insert_with`): itself as the coordinator.
unfoldable pub or_created : Option Session → ClientId → Session
or_created none client = record { order = []; members = []; coordinator = client; next_slot = 0 }
or_created (some s) client = s

unfoldable pub outcome : ℕ → ClientId → Session → JoinOutcome
outcome slot client s = record {
  slot = slot;
  is_coordinator = s.coordinator == client;
  roster = session_roster s;
}

-- A newcomer takes the next slot, which is a `u32`.
unfoldable pub admit : Session → ClientId → String → Session
admit s client principal = record s {
  order = s.order ++ client ∷ [];
  members =
      insert client (record { client_id = client; principal_id = principal; slot = s.next_slot })
        s.members;
  next_slot = (s.next_slot + 1) % u32_mod;
}

unfoldable pub join_session :
    Option SessionMember → Session → ClientId → String → JoinOutcome × Session
unfolding outcome admit
join_session (some m) s client principal = (outcome m.slot client s, s)
join_session none s client principal =
    let s' = admit s client principal in (outcome s.next_slot client s', s')

unfoldable pub join : String → ClientId → String → Sessions → JoinOutcome × Sessions
unfolding or_created join_session
join name client principal ss =
    let s = or_created (get name ss.sessions) client in
    let (out, s') = join_session (get client s.members) s client principal in
    (out, record { sessions = insert name s' ss.sessions })

-- What a `leave` does: the caller was no member, or the outcome with the sessions after. The
-- source indexes `order[0]` and `members[&new_id]`, which panics where they are not there.
pub data Leaving : Type 0 where
  not_member : Leaving
  panics : Leaving
  leaves : LeaveOutcome → Sessions → Leaving

-- The election under `Reelect`: `order[0]`, then its entry.
abbrev promoted : ClientId → Option SessionMember → Option (ClientId × SessionMember)
promoted id none = none
promoted id (some m) = some (id, m)

unfoldable pub elect :
    List ClientId → Map ClientId SessionMember → Option (ClientId × SessionMember)
elect [] members = none
elect (id ∷ _) members = promoted id (get id members)

unfoldable pub hand_over :
    Option (ClientId × SessionMember) → SessionMember → Session → String → Sessions → Leaving
hand_over none member s name ss = panics
hand_over (some (id, m)) member s name ss =
    let s' = record s { coordinator = id } in
    leaves
      (record {
        member = member;
        change = reelected m;
        remaining = session_roster s';
        removed = false;
      })
      (record { sessions = insert name s' ss.sessions })

unfoldable pub coordinator_left :
    CoordinatorLeavePolicy → SessionMember → Session → String → Sessions → Leaving
unfolding hand_over elect
coordinator_left reelect member s name ss = hand_over (elect s.order s.members) member s name ss
coordinator_left close member s name ss =
    leaves
      (record { member = member; change = closed; remaining = session_roster s; removed = true })
      (record { sessions = remove name ss.sessions })

-- `s` is the session without the member; `was_coordinator` compares with its old role.
unfoldable pub leave_rest :
    Bool
    → Map ClientId SessionMember
    → CoordinatorLeavePolicy
    → SessionMember
    → Session
    → String
    → Sessions
    → Leaving
unfolding coordinator_left
leave_rest was_coordinator [] policy member s name ss =
    leaves (record { member = member; change = unchanged; remaining = []; removed = true })
      (record { sessions = remove name ss.sessions })
leave_rest false (_ ∷ _) policy member s name ss =
    leaves
      (record {
        member = member;
        change = unchanged;
        remaining = session_roster s;
        removed = false;
      })
      (record { sessions = insert name s ss.sessions })
leave_rest true (_ ∷ _) policy member s name ss = coordinator_left policy member s name ss

abbrev pub without : ClientId → Session → Session
without client s = record s {
  order = filter (λ c. not (c == client)) s.order;
  members = remove client s.members;
}

unfoldable pub leave_session :
    Option SessionMember → Session → String → ClientId → CoordinatorLeavePolicy → Sessions → Leaving
unfolding leave_rest
leave_session none s name client policy ss = not_member
leave_session (some member) s name client policy ss =
    let s' = without client s in
    leave_rest (s.coordinator == client) s'.members policy member s' name ss

unfoldable pub leave_found :
    Option Session → String → ClientId → CoordinatorLeavePolicy → Sessions → Leaving
unfolding leave_session
leave_found none name client policy ss = not_member
leave_found (some s) name client policy ss =
    leave_session (get client s.members) s name client policy ss

unfoldable pub leave : String → ClientId → CoordinatorLeavePolicy → Sessions → Leaving
unfolding leave_found
leave name client policy ss = leave_found (get name ss.sessions) name client policy ss

unfoldable pub coordinator_of : Option Session → Option ClientId
coordinator_of none = none
coordinator_of (some s) = some s.coordinator

unfoldable pub coordinator : String → Sessions → Option ClientId
unfolding coordinator_of
coordinator name ss = coordinator_of (get name ss.sessions)

abbrev is_coordinator_of : Option Session → ClientId → Bool
is_coordinator_of none client = false
is_coordinator_of (some s) client = s.coordinator == client

unfoldable pub is_coordinator : String → ClientId → Sessions → Bool
is_coordinator name client ss = is_coordinator_of (get name ss.sessions) client

abbrev pub member_of : Option Session → ClientId → Option SessionMember
member_of none client = none
member_of (some s) client = get client s.members

unfoldable pub member : String → ClientId → Sessions → Option SessionMember
member name client ss = member_of (get name ss.sessions) client

abbrev pub roster_of : Option Session → List SessionMember
roster_of none = []
roster_of (some s) = session_roster s

unfoldable pub roster : String → Sessions → List SessionMember
unfolding session_roster
roster name ss = roster_of (get name ss.sessions)

unfoldable pub count : Sessions → ℕ
count ss = length ss.sessions

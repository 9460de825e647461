-- ===== src/Realtime/Sessions/Rosters.antt =====
-- The roster that members are told (crates/atomo_realtime/src/sessions.rs).
use atomo.Prelude.{String, nat_key, string_key, Bool, Option, none, some, List, [], leb, arith}
use atomo.Prelude.Map.{get, values}
use atomo.Prelude.Sorting.{IsTotal, IsOrderedBy, sort_by-IsOrderedBy, sort_by-Perm}
use mathlib.Core.List.{Perm}
use mathlib.Core.List.Perm
use atomo.Realtime.Sessions.{
  SessionMember, Session, Sessions, session_roster, sort_by_slot, roster_of, roster,
}

abbrev pub by_slot : SessionMember → SessionMember → Bool
by_slot m x = leb m.slot x.slot

by_slot-IsTotal : IsTotal by_slot
by_slot-IsTotal = record { total = λ a b h. ground arith; trans = λ a b c h g. ground arith }

-- The entries of a session that may not be there.
abbrev pub entries : Option Session → List SessionMember
entries none = []
entries (some s) = values s.members

roster_of_lem :
    (o : Option Session) → IsOrderedBy by_slot (roster_of o) × Perm (roster_of o) (entries o)
unfolding session_roster sort_by_slot
roster_of_lem none = (tt, Perm.refl [])
roster_of_lem (some s) = (
  sort_by-IsOrderedBy by_slot-IsTotal (values s.members),
  sort_by-Perm by_slot (values s.members),
)

-- The roster of a session is in order of the slots, and has exactly the entries of its members; for a
-- session that is not there it is empty.
pub roster_lem :
    (name : String) (ss : Sessions)
    → IsOrderedBy by_slot (roster name ss) × Perm (roster name ss) (entries (get name ss.sessions))
unfolding roster
roster_lem name ss = roster_of_lem (get name ss.sessions)

-- ===== src/Realtime/Sessions/NoPanic.antt =====
-- `leave` keeps well-formed coordinator sessions, and the two places where the source would panic
-- are out of reach (crates/atomo_realtime/src/sessions.rs).
use atomo.Prelude.{
  String, Bool, true, false, not, Option, none, some, List, [], ◌∷◌, ◌≡◌, ◌≢◌, refl, arith, inl,
  inr, ◌==◌, contains, contains-filter, is_some, Option-cases, nat_eq_iff, nat_key, string_key,
}
use atomo.Prelude.Map.{Map, get, get-remove}
use atomo.Realtime.Protocol.{ClientId}
use atomo.Realtime.Sessions.{
  CoordinatorLeavePolicy, reelect, close, SessionMember, Session, Sessions, Leaving, not_member,
  panics, leaves, elect, hand_over, coordinator_left, leave_rest, without, leave_session,
  leave_found, leave, member,
}
use atomo.Realtime.Sessions.Validity.{
  IsOrdered, IsValid, AllValid, insert-AllValid, remove-AllValid,
}

without-IsOrdered : (client : ClientId) (s : Session) → IsOrdered s → IsOrdered (without client s)
without-IsOrdered client s v = record {
  listed = λ i. ground (
    arith,
    v.listed i,
    nat_eq_iff i client,
    nat_eq_iff client i,
    get-remove client i s.members,
    contains-filter (λ c. not (c == client)) s.order i,
  );
  keyed = λ i m e. v.keyed i m (ground (arith, get-remove client i s.members));
}

-- The election finds an entry: there is somebody left, and the order lists exactly those.
elect-some :
    (order : List ClientId) (members : Map ClientId SessionMember)
    → ((i : ClientId) → contains order i ≡ is_some (get i members))
    → members ≢ []
    → (i : ClientId) × (m : SessionMember) × (elect order members ≡ some (i, m))
      × (get i members ≡ some m)
unfolding elect get
elect-some [] [] h ne = absurd (ne refl)
elect-some [] ((j, m) ∷ ms) h ne = absurd (ground (arith, h j, nat_eq_iff j j))
elect-some (i ∷ is) ms h ne = elim (Option-cases (get i ms)) [
  | inl e ↦ absurd (ground (arith, h i, nat_eq_iff i i))
  | inr (m, e) ↦ (i, m, rw e, e)
]

-- A `leave` ends without a panic, and with well-formed sessions.
abbrev pub Ends : Leaving → Type 0
Ends not_member = Unit {0}
Ends panics = ⊥
Ends (leaves out ss) = AllValid ss

hand_over-Ends :
    (member : SessionMember) (s : Session) (name : String) (ss : Sessions)
    → IsOrdered s
    → s.members ≢ []
    → AllValid ss
    → Ends (hand_over (elect s.order s.members) member s name ss)
unfolding hand_over
hand_over-Ends member s name ss v ne vs =
    let (i, m, e, there) = elect-some s.order s.members v.listed ne in
    rw (e, hand_over)
      (insert-AllValid name (record s { coordinator = i }) ss
        (record { ordered = record { listed = v.listed; keyed = v.keyed }; led = rw there }) vs)

coordinator_left-Ends :
    (policy : CoordinatorLeavePolicy) (member : SessionMember) (s : Session) (name : String)
    (ss : Sessions)
    → IsOrdered s
    → s.members ≢ []
    → AllValid ss
    → Ends (coordinator_left policy member s name ss)
unfolding coordinator_left
coordinator_left-Ends reelect member s name ss v ne vs = hand_over-Ends member s name ss v ne vs
coordinator_left-Ends close member s name ss v ne vs = remove-AllValid name ss vs

leave_rest-Ends :
    (was : Bool) (ms : Map ClientId SessionMember) (policy : CoordinatorLeavePolicy)
    (member : SessionMember) (s : Session) (name : String) (ss : Sessions)
    → s.members ≡ ms
    → IsOrdered s
    → (was ≡ false → is_some (get s.coordinator s.members) ≡ true)
    → AllValid ss
    → Ends (leave_rest was ms policy member s name ss)
unfolding leave_rest
leave_rest-Ends was [] policy member s name ss e v led vs = remove-AllValid name ss vs
leave_rest-Ends false (m ∷ ms) policy member s name ss e v led vs =
    insert-AllValid name s ss (record { ordered = v; led = led refl }) vs
leave_rest-Ends true (m ∷ ms) policy member s name ss e v led vs =
    coordinator_left-Ends policy member s name ss v (λ p. cc) vs

leave_session-Ends :
    (o : Option SessionMember) (s : Session) (name : String) (client : ClientId)
    (policy : CoordinatorLeavePolicy) (ss : Sessions)
    → IsValid s
    → AllValid ss
    → Ends (leave_session o s name client policy ss)
unfolding leave_session
leave_session-Ends none s name client policy ss v vs = tt
leave_session-Ends (some member) s name client policy ss v vs =
    leave_rest-Ends (s.coordinator == client) _ policy member (without client s) name ss refl
      (without-IsOrdered client s v.ordered)
      (λ other. ground (arith, v.led, get-remove client s.coordinator s.members)) vs

leave_found-Ends :
    (o : Option Session) (name : String) (client : ClientId) (policy : CoordinatorLeavePolicy)
    (ss : Sessions)
    → ((s : Session) → o ≡ some s → IsValid s)
    → AllValid ss
    → Ends (leave_found o name client policy ss)
unfolding leave_found
leave_found-Ends none name client policy ss v vs = tt
leave_found-Ends (some s) name client policy ss v vs =
    leave_session-Ends (get client s.members) s name client policy ss (v s refl) vs

-- From well-formed sessions `leave` never panics, and what it leaves is well-formed.
pub leave-Ends :
    (name : String) (client : ClientId) (policy : CoordinatorLeavePolicy) {ss : Sessions}
    → AllValid ss
    → Ends (leave name client policy ss)
unfolding leave
leave-Ends name client policy {ss} vs =
    leave_found-Ends (get name ss.sessions) name client policy ss (vs.at name) vs

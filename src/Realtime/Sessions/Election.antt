-- ===== src/Realtime/Sessions/Election.antt =====
-- The coordinator of a session after `leave` (crates/atomo_realtime/src/sessions.rs).
use atomo.Prelude.{
  String, Bool, true, false, not, Option, none, some, List, [], ◌∷◌, ◌≡◌, ◌≢◌, refl, subst, ap,
  arith, ◌==◌, contains, contains-filter, is_some, filter, nat_eq_iff, nat_key, string_key, eq_iff,
}
use atomo.Prelude.Map.{Map, get, insert, remove, get-insert, get-remove}
use atomo.Realtime.Protocol.{ClientId}
use atomo.Realtime.Sessions.{
  CoordinatorLeavePolicy, reelect, close, SessionMember, Session, Sessions, unchanged, reelected,
  closed, Leaving, not_member, panics, leaves, elect, hand_over, coordinator_left, leave_rest,
  without, leave_session, leave_found, leave, coordinator_of, coordinator, member, member_of,
}
use atomo.Realtime.Sessions.Validity.{IsValid, AllValid}
use atomo.Realtime.Sessions.Roles.{in_session}

led_of :
    (o : Option Session) (c : ClientId)
    → ((s : Session) → o ≡ some s → IsValid s)
    → coordinator_of o ≡ some c
    → is_some (member_of o c) ≡ true
unfolding coordinator_of
led_of none c v h = cc
led_of (some s) c v h =
    let same : s.coordinator ≡ c = cc in
    subst (λ i. is_some (get i s.members) ≡ true) same (v s refl).led

-- In well-formed sessions, a session that has a coordinator has it as a member.
pub coordinator-in_session :
    (name : String) (c : ClientId) (ss : Sessions)
    → AllValid ss
    → coordinator name ss ≡ some c
    → in_session name c ss ≡ true
unfolding coordinator member
coordinator-in_session name c ss vs h = led_of (get name ss.sessions) c (vs.at name) h

-- The outcome of a `leave` after which `i` coordinates, announced with its entry `m`.
abbrev pub Reelects : String → ClientId → SessionMember → Leaving → Type 0
Reelects name i m not_member = ⊥
Reelects name i m panics = ⊥
Reelects name i m (leaves out ss) =
    (out.change ≡ reelected m) × (out.removed ≡ false) × (coordinator name ss ≡ some i)

-- The outcome of a `leave` that ends the session.
abbrev pub Closes : String → Leaving → Type 0
Closes name not_member = ⊥
Closes name panics = ⊥
Closes name (leaves out ss) =
    (out.change ≡ closed) × (out.removed ≡ true) × (coordinator name ss ≡ none)

-- The outcome of a `leave` after which `c` still coordinates.
abbrev pub Retains : String → ClientId → Leaving → Type 0
Retains name c not_member = Unit {0}
Retains name c panics = ⊥
Retains name c (leaves out ss) =
    (out.change ≡ unchanged) × (out.removed ≡ false) × (coordinator name ss ≡ some c)

coordinator-insert :
    (name : String) (s : Session) (ss : Sessions)
    → coordinator name (record { sessions = insert name s ss.sessions }) ≡ some s.coordinator
unfolding coordinator coordinator_of
coordinator-insert name s ss = ground (arith, eq_iff name name, get-insert name name s ss.sessions)

coordinator-remove :
    (name : String) (ss : Sessions)
    → coordinator name (record { sessions = remove name ss.sessions }) ≡ none
unfolding coordinator coordinator_of
coordinator-remove name ss = ground (arith, eq_iff name name, get-remove name name ss.sessions)

not_leaver :
    (client i : ClientId) (order rest : List ClientId)
    → filter (λ c. not (c == client)) order ≡ i ∷ rest
    → i ≢ client
not_leaver client i order rest h same = ground (
  arith,
  nat_eq_iff i client,
  nat_eq_iff i i,
  contains-filter (λ c. not (c == client)) order i,
  ap (λ (l : List ClientId). contains l i) h,
)

elect_first :
    (order rest : List ClientId) (members : Map ClientId SessionMember) (i : ClientId)
    (m : SessionMember)
    → order ≡ i ∷ rest
    → get i members ≡ some m
    → elect order members ≡ some (i, m)
unfolding elect
elect_first order rest members i m o e = rw (o, elect, e)

-- What is left of a session, `s`, is not empty: `i` is a member.
module _ (name : String) (gone : SessionMember) (s : Session) (ss : Sessions) (i : ClientId) where
  rest-Reelects :
      (ms : Map ClientId SessionMember) (rest : List ClientId) (m : SessionMember)
      → is_some (get i ms) ≡ true
      → s.order ≡ i ∷ rest
      → get i s.members ≡ some m
      → Reelects name i m (leave_rest true ms reelect gone s name ss)
  unfolding leave_rest coordinator_left hand_over get
  rest-Reelects [] rest m h o e = ground arith
  rest-Reelects (x ∷ ms) rest m h o e =
      rw (elect_first s.order rest s.members i m o e, hand_over)
        (refl, refl, coordinator-insert name (record s { coordinator = i }) ss)

  rest-Closes :
      (ms : Map ClientId SessionMember)
      → is_some (get i ms) ≡ true
      → Closes name (leave_rest true ms close gone s name ss)
  unfolding leave_rest coordinator_left get
  rest-Closes [] h = ground arith
  rest-Closes (x ∷ ms) h = (refl, refl, coordinator-remove name ss)

  rest-Retains :
      (ms : Map ClientId SessionMember) (policy : CoordinatorLeavePolicy)
      → is_some (get i ms) ≡ true
      → Retains name s.coordinator (leave_rest false ms policy gone s name ss)
  unfolding leave_rest get
  rest-Retains [] policy h = ground arith
  rest-Retains (x ∷ ms) policy h = (refl, refl, coordinator-insert name s ss)

still_there :
    (client i : ClientId) (s : Session)
    → i ≢ client
    → get i (remove client s.members) ≡ get i s.members
still_there client i s other = ground (arith, nat_eq_iff client i, get-remove client i s.members)

module _ (name : String) (client : ClientId) (s : Session) (ss : Sessions) (gone : SessionMember)
    (found : get name ss.sessions ≡ some s) (there : get client s.members ≡ some gone) where
  leave-eq :
      (policy : CoordinatorLeavePolicy)
      → leave name client policy ss
        ≡ leave_rest
            (s.coordinator == client)
            (without client s).members
            policy
            gone
            (without client s)
            name
            ss
  unfolding leave leave_found leave_session
  leave-eq policy = rw (found, leave_found, there, leave_session)

  -- Under `Reelect`, when the coordinator of a session that is found leaves it, and `i`, a member,
  -- is the first of the others in the order of their joining, then the session goes on, `i` is
  -- announced with its entry and is the coordinator.
  pub leave-Reelects :
      (i : ClientId) (rest : List ClientId) (m : SessionMember)
      → s.coordinator ≡ client
      → filter (λ c. not (c == client)) s.order ≡ i ∷ rest
      → get i s.members ≡ some m
      → Reelects name i m (leave name client reelect ss)
  leave-Reelects i rest m led oldest entry =
      let here = still_there client i s (not_leaver client i s.order rest oldest) in
      rw (leave-eq reelect, (nat_eq_iff s.coordinator client).1 led)
        (rest-Reelects name gone (without client s) ss i (remove client s.members) rest m
          (rw here (rw entry)) oldest (rw here entry))

  -- Under `Close`, when the coordinator of a session that is found leaves it and there is another
  -- member, the session is closed and has no coordinator any more.
  pub leave-Closes :
      (i : ClientId)
      → s.coordinator ≡ client
      → i ≢ client
      → is_some (get i s.members) ≡ true
      → Closes name (leave name client close ss)
  leave-Closes i led other entry =
      rw (leave-eq close, (nat_eq_iff s.coordinator client).1 led)
        (rest-Closes name gone (without client s) ss i (remove client s.members)
          (rw (still_there client i s other) entry))

  -- When a member that is not the coordinator leaves a session that is found, and the coordinator
  -- is a member, then under both policies no change is announced, the session goes on and the
  -- coordinator stays.
  pub leave-Retains :
      (policy : CoordinatorLeavePolicy)
      → s.coordinator ≢ client
      → is_some (get s.coordinator s.members) ≡ true
      → Retains name s.coordinator (leave name client policy ss)
  leave-Retains policy other entry =
      rw (leave-eq policy, differs)
        (rest-Retains name gone (without client s) ss s.coordinator (remove client s.members) policy
          (rw (still_there client s.coordinator s other) entry))
    where
      differs : (s.coordinator == client) ≡ false
      differs = ground (arith, nat_eq_iff s.coordinator client)

-- A `leave` that closes the session removes it.
abbrev pub ClosedIsRemoved : Leaving → Type 0
ClosedIsRemoved not_member = Unit {0}
ClosedIsRemoved panics = Unit {0}
ClosedIsRemoved (leaves out ss) = out.change ≡ closed → out.removed ≡ true

hand_over-ClosedIsRemoved :
    (o : Option (ClientId × SessionMember)) (m : SessionMember) (s : Session) (name : String)
    (ss : Sessions)
    → ClosedIsRemoved (hand_over o m s name ss)
unfolding hand_over
hand_over-ClosedIsRemoved none m s name ss = tt
hand_over-ClosedIsRemoved (some (i, _)) m s name ss = λ e. cc

leave_rest-ClosedIsRemoved :
    (was : Bool) (ms : Map ClientId SessionMember) (policy : CoordinatorLeavePolicy)
    (m : SessionMember) (s : Session) (name : String) (ss : Sessions)
    → ClosedIsRemoved (leave_rest was ms policy m s name ss)
unfolding leave_rest coordinator_left
leave_rest-ClosedIsRemoved was [] policy m s name ss = λ e. refl
leave_rest-ClosedIsRemoved false (x ∷ ms) policy m s name ss = λ e. cc
leave_rest-ClosedIsRemoved true (x ∷ ms) reelect m s name ss =
    hand_over-ClosedIsRemoved (elect s.order s.members) m s name ss
leave_rest-ClosedIsRemoved true (x ∷ ms) close m s name ss = λ e. refl

leave_session-ClosedIsRemoved :
    (o : Option SessionMember) (s : Session) (name : String) (client : ClientId)
    (policy : CoordinatorLeavePolicy) (ss : Sessions)
    → ClosedIsRemoved (leave_session o s name client policy ss)
unfolding leave_session
leave_session-ClosedIsRemoved none s name client policy ss = tt
leave_session-ClosedIsRemoved (some m) s name client policy ss =
    leave_rest-ClosedIsRemoved (s.coordinator == client) (without client s).members policy m
      (without client s) name ss

leave_found-ClosedIsRemoved :
    (o : Option Session) (name : String) (client : ClientId) (policy : CoordinatorLeavePolicy)
    (ss : Sessions)
    → ClosedIsRemoved (leave_found o name client policy ss)
unfolding leave_found
leave_found-ClosedIsRemoved none name client policy ss = tt
leave_found-ClosedIsRemoved (some s) name client policy ss =
    leave_session-ClosedIsRemoved (get client s.members) s name client policy ss

pub leave-ClosedIsRemoved :
    (name : String) (client : ClientId) (policy : CoordinatorLeavePolicy) (ss : Sessions)
    → ClosedIsRemoved (leave name client policy ss)
unfolding leave
leave-ClosedIsRemoved name client policy ss =
    leave_found-ClosedIsRemoved (get name ss.sessions) name client policy ss

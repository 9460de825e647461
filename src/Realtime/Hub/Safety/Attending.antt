-- ===== src/Realtime/Hub/Safety/Attending.antt =====
-- The commands of sessions keep the hub's invariant (crates/atomo_realtime/src/hub.rs).
use atomo.Prelude.{
  ℕ, String, Bool, true, false, Option, none, some, ◌≡◌, refl, arith, ◌==◌, if◌then◌else◌,
  nat_eq_iff, nat_key, string_key, eq_iff,
}
use atomo.Prelude.Map.{get, set_insert, get-insert, length-insert_there, contains-set_insert}
use atomo.Prelude.Exec.{pure, modify, Ensures-continue}
use atomo.Realtime.Protocol.{ClientId, Payload}
use atomo.Realtime.Runtime.{Runtime}
use atomo.Realtime.Sessions
use atomo.Realtime.Sessions.{Sessions, SessionMember, JoinOutcome}
use atomo.Realtime.Sessions.Validity.{join-AllValid}
use atomo.Realtime.Sessions.Slots.{in_session-join}
use atomo.Realtime.Hub.State.{
  ClientState, Worker, Deliver, update_found, update_client, principal_id, published,
  refresh_session_gauge,
}
use atomo.Realtime.Hub.Commands.{
  allow_join, introduce, session_joined, on_session_join, relay, on_to_coordinator, on_to_members,
}
use atomo.Realtime.Hub.Invariant.{Frame, Inv, stats-Inv, refresh_session_gauge-Inv}
use atomo.Realtime.Hub.Farewells.{Keeps, IsSafe, continue-Keeps, for_each-Keeps, unless-Keeps}
use atomo.Realtime.Hub.Safety.{client_of, if-Keeps, allow_join-Keeps}

module _ {R : Runtime} {n : ℕ} {deliver : Deliver R} (safe : IsSafe n deliver) (F : Frame)
    (bound : F.bound ≡ n) where
  introduce-Keeps :
      (outcome : JoinOutcome) (id : ClientId) (session who : String) (w : Worker R)
      → Inv F w
      → Keeps F (introduce deliver outcome id session who w)
  unfolding introduce
  introduce-Keeps outcome id session who w v =
      for_each-Keeps safe F _ outcome.roster w
        (λ m s h. unless-Keeps safe F (m.client_id == id) m.client_id _ s bound h) v

  -- A client that is connected joins a session: listed there, and on its own list.
  attend-Inv :
      (session : String) (id : ClientId) (who : String) (w : Worker R) (cs : ClientState R)
      → ((k : String) (i : ClientId) → F.allowed k i ≡ true)
      → get id w.clients ≡ some cs
      → Inv F w
      → Inv F (
          update_client id
            (λ cs. record cs { sessions = set_insert session cs.sessions })
            (record w { sessions = (Sessions.join session id who w.sessions).1 }))
  unfolding update_client
  attend-Inv session id who w cs open_to_all e v =
      rw (e, update_found)
        (record {
          bounded = omega (arith, v.bounded, length-insert_there id more w.clients e);
          known = λ i h. ground (arith, v.known i, nat_eq_iff id i, get-insert id i more w.clients);
          channels = λ c i h.
              ground (arith, v.channels c i h, nat_eq_iff id i, get-insert id i more w.clients);
          sessions = λ k i h. ground (
            arith,
            v.sessions k i,
            nat_eq_iff id i,
            eq_iff session k,
            in_session-join session id who w.sessions k i,
            get-insert id i more w.clients,
            contains-set_insert session k cs.sessions,
          );
          within = λ k i h. open_to_all k i;
          valid = join-AllValid session id who v.valid;
        })
    where
      more : ClientState R
      more = record cs { sessions = set_insert session cs.sessions }

  session_joined-Keeps :
      (o : Option String) (id : ClientId) (session : String) (w : Worker R)
      → ((k : String) (i : ClientId) → F.allowed k i ≡ true)
      → principal_id id w ≡ o
      → Inv F w
      → Keeps F (session_joined deliver o id session w)
  unfolding session_joined principal_id
  session_joined-Keeps none id session w open_to_all e v = v
  session_joined-Keeps (some who) id session w open_to_all e v =
      let (cs, there) = client_of id (get id w.clients) e in
      continue-Keeps F (deliver id _ _) _
        (safe.at F id _ _ bound (attend-Inv session id who w cs open_to_all there v))
        (λ s h.
          continue-Keeps F (introduce deliver outcome id session who s)
            (λ _. modify refresh_session_gauge) (introduce-Keeps outcome id session who s h)
            (refresh_session_gauge-Inv F))
    where
      outcome : JoinOutcome
      outcome = (Sessions.join session id who w.sessions).0

  pub on_session_join-Keeps :
      (now : ℕ) (id : ClientId) (session : String) (w : Worker R)
      → ((k : String) (i : ClientId) → F.allowed k i ≡ true)
      → Inv F w
      → Keeps F (on_session_join deliver now id session w)
  unfolding on_session_join
  on_session_join-Keeps now id session w open_to_all v =
      Ensures-continue (λ _ s. Inv F s) (λ _ s. Inv F s) (allow_join deliver now id w) _
        (allow_join-Keeps safe F bound now id w v) joined
    where
      joined :
          (allowed : Bool) (s : Worker R)
          → Inv F s
          → Keeps F (
              (if allowed
                  then (λ w. session_joined deliver (principal_id id w) id session w)
                  else pure tt)
                s)
      joined true s h = session_joined-Keeps (principal_id id s) id session s open_to_all refl h
      joined false s h = h

  relay-Keeps :
      (sender : Option SessionMember) (coordinator : Option ClientId) (session : String)
      (payload : Payload) (w : Worker R)
      → Inv F w
      → Keeps F (relay deliver sender coordinator session payload w)
  unfolding relay
  relay-Keeps none coordinator session payload w v = v
  relay-Keeps (some sender) none session payload w v = v
  relay-Keeps (some sender) (some coordinator) session payload w v =
      safe.at F coordinator _ _ bound (stats-Inv F _ w v)

  pub on_to_coordinator-Keeps :
      (id : ClientId) (session : String) (payload : Payload) (w : Worker R)
      → Inv F w
      → Keeps F (on_to_coordinator deliver id session payload w)
  unfolding on_to_coordinator
  on_to_coordinator-Keeps id session payload w v =
      relay-Keeps (Sessions.member session id w.sessions) (Sessions.coordinator session w.sessions)
        session payload w v

  pub on_to_members-Keeps :
      (id : ClientId) (session : String) (payload : Payload) (w : Worker R)
      → Inv F w
      → Keeps F (on_to_members deliver id session payload w)
  unfolding on_to_members
  on_to_members-Keeps id session payload w v =
      if-Keeps F (Sessions.is_coordinator session id w.sessions) _ _
        (for_each-Keeps safe F _ _ (published w) (λ cid s h. safe.at F cid _ s bound h)
          (stats-Inv F _ w v))
        (safe.at F id _ w bound v)

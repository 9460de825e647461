-- ===== src/Realtime/Hub/Safety.antt =====
-- Each command keeps the hub's invariant (crates/atomo_realtime/src/hub.rs), over a delivery that
-- keeps it.
pub mod Attending
pub mod Connecting
use atomo.Prelude.{
  ℕ, zero, suc, ◌≤◌, String, Bool, true, false, not, ◌&&◌, ◌||◌, Option, none, some, List, [], ◌∷◌,
  ◌≡◌, refl, arith, ◌==◌, length, contains, is_some, if◌then◌else◌, nat_eq_iff, nat_key, string_key,
  eq_iff, map, filter,
}
use atomo.Prelude.Map.{
  get, insert, set_insert, set_remove, get-insert, length-insert_there, length-insert-le,
  contains-set_insert,
}
use atomo.Prelude.Exec.{
  Run, Exec, continue, pure, modify, for_each, Ensures, Ensures-mono, Ensures-continue,
}
use atomo.Realtime.Protocol.{ClientId, Payload, Principal, ServerMsg}
use atomo.Realtime.Runtime.{Runtime}
use atomo.Realtime.Presence
use atomo.Realtime.Presence.{Presence}
use atomo.Realtime.Presence.Membership.{has, has-join}
use atomo.Realtime.Sessions
use atomo.Realtime.Sessions.{Sessions, SessionMember, JoinOutcome}
use atomo.Realtime.Sessions.Validity.{join-AllValid}
use atomo.Realtime.Sessions.Slots.{in_session-join}
use atomo.Realtime.Hub.State.{
  ClientState, Worker, Deliver, Action, update_found, update_client, principal_id, id_of, published,
  on_connect, refresh_channel_gauge, refresh_session_gauge,
}
use atomo.Realtime.Hub.Delivery.{leave_channel, leave_presence}
use atomo.Realtime.Hub.Commands.{
  limited, allow_found, allow_join, greet, subscribed, on_subscribe, on_unsubscribe, on_publish,
  on_presence, infos, introduce, session_joined, on_session_join, relay, on_to_coordinator,
  on_to_members,
}
use atomo.Realtime.Hub.Invariant.{
  Frame, Inv, subscribes, attends, stats-Inv, refresh_channel_gauge-Inv, refresh_session_gauge-Inv,
  insert-Inv, unsubscribe-Inv, Inv-mono,
}
use atomo.Realtime.Hub.Farewells.{
  Keeps, IsSafe, continue-Keeps, for_each-Keeps, unless-Keeps, broadcast_except-Keeps,
  leave_presence-Keeps,
}

module _ {R : Runtime} where
  -- A client that has a principal is connected.
  pub client_of :
      (id : ClientId) (o : Option (ClientState R)) {who : String}
      → id_of o ≡ some who
      → (cs : ClientState R) × (o ≡ some cs)
  client_of id none e = absurd (cc)
  client_of id (some cs) e = (cs, refl)

  pub if-Keeps :
      (F : Frame) (b : Bool) (r s : Run (Unit {0} × Worker R))
      → Keeps F r
      → Keeps F s
      → Keeps F (if b then r else s)
  if-Keeps F true r s h k = h
  if-Keeps F false r s h k = k

module _ {R : Runtime} {n : ℕ} {deliver : Deliver R} (safe : IsSafe n deliver) (F : Frame)
    (bound : F.bound ≡ n) where
  pub allow_found-Keeps :
      (o : Option (ClientState R)) (now : ℕ) (id : ClientId) (w : Worker R)
      → get id w.clients ≡ o
      → Inv F w
      → Ensures (λ _ s. Inv F s) (allow_found deliver o now id w)
  unfolding allow_found
  allow_found-Keeps none now id w e v = v
  allow_found-Keeps (some cs) now id w e v = warned (limited cs.join_limiter now).0
    where
      next : ClientState R
      next = record cs { join_limiter = (limited cs.join_limiter now).1 }

      told : Inv F (record w { clients = insert id next w.clients })
      told = insert-Inv F w id cs next e (λ c h. h) (λ c h. h) v

      warned :
          (allowed : Bool)
          → Ensures
              (λ _ s. Inv F s)
              (continue
                ((if allowed
                    then pure tt
                    else deliver id (ServerMsg.error "join rate limit exceeded"))
                  (record w { clients = insert id next w.clients }))
                (λ _. pure allowed))
      warned allowed =
          Ensures-continue (λ _ s. Inv F s) (λ _ s. Inv F s) _ (λ _. pure allowed)
            (unless-Keeps safe F allowed id _ _ bound told) (λ _ s h. h)

  pub allow_join-Keeps :
      (now : ℕ) (id : ClientId) (w : Worker R)
      → Inv F w
      → Ensures (λ _ s. Inv F s) (allow_join deliver now id w)
  unfolding allow_join
  allow_join-Keeps now id w v = allow_found-Keeps (get id w.clients) now id w refl v

  greet-Keeps :
      (newly : Bool) (channel : String) (id : ClientId) (who : String) (w : Worker R)
      → Inv F w
      → Keeps F (greet deliver newly channel id who w)
  unfolding greet
  greet-Keeps true channel id who w v = broadcast_except-Keeps safe F channel id _ w bound v
  greet-Keeps false channel id who w v = v

  -- A client that is connected joins a channel: listed there, and on its own list.
  join-Inv :
      (channel : String) (id : ClientId) (who : String) (w : Worker R) (cs : ClientState R)
      → get id w.clients ≡ some cs
      → Inv F w
      → Inv F (
          update_client id
            (λ cs. record cs { subscriptions = set_insert channel cs.subscriptions })
            (record w { presence = (Presence.join channel id who w.presence).1 }))
  unfolding update_client
  join-Inv channel id who w cs e v =
      rw (e, update_found)
        (record {
          bounded = omega (arith, v.bounded, length-insert_there id more w.clients e);
          known = λ i h. ground (arith, v.known i, nat_eq_iff id i, get-insert id i more w.clients);
          channels = λ c i h. ground (
            arith,
            v.channels c i,
            nat_eq_iff id i,
            eq_iff channel c,
            has-join channel id who w.presence c i,
            get-insert id i more w.clients,
            contains-set_insert channel c cs.subscriptions,
          );
          sessions = λ k i h.
              ground (arith, v.sessions k i h, nat_eq_iff id i, get-insert id i more w.clients);
          within = v.within;
          valid = v.valid;
        })
    where
      more : ClientState R
      more = record cs { subscriptions = set_insert channel cs.subscriptions }

  subscribed-Keeps :
      (o : Option String) (id : ClientId) (channel : String) (w : Worker R)
      → principal_id id w ≡ o
      → Inv F w
      → Keeps F (subscribed deliver o id channel w)
  unfolding subscribed principal_id
  subscribed-Keeps none id channel w e v = v
  subscribed-Keeps (some who) id channel w e v =
      let (cs, there) = client_of id (get id w.clients) e in
      continue-Keeps F (deliver id _ _) _
        (safe.at F id _ _ bound (join-Inv channel id who w cs there v))
        (λ s h.
          continue-Keeps F (greet deliver newly channel id who s)
            (λ _. modify refresh_channel_gauge) (greet-Keeps newly channel id who s h)
            (refresh_channel_gauge-Inv F))
    where
      newly : Bool
      newly = (Presence.join channel id who w.presence).0

  pub on_subscribe-Keeps :
      (now : ℕ) (id : ClientId) (channel : String) (w : Worker R)
      → Inv F w
      → Keeps F (on_subscribe deliver now id channel w)
  unfolding on_subscribe
  on_subscribe-Keeps now id channel w v =
      Ensures-continue (λ _ s. Inv F s) (λ _ s. Inv F s) (allow_join deliver now id w) _
        (allow_join-Keeps now id w v) joined
    where
      joined :
          (allowed : Bool) (s : Worker R)
          → Inv F s
          → Keeps F (
              (if allowed
                  then (λ w. subscribed deliver (principal_id id w) id channel w)
                  else pure tt)
                s)
      joined true s h = subscribed-Keeps (principal_id id s) id channel s refl h
      joined false s h = h

  pub on_unsubscribe-Keeps :
      (id : ClientId) (channel : String) (w : Worker R)
      → Inv F w
      → Keeps F (on_unsubscribe deliver id channel w)
  unfolding on_unsubscribe leave_channel
  on_unsubscribe-Keeps id channel w v =
      continue-Keeps F (leave_presence deliver _ channel id _) (λ _. modify refresh_channel_gauge)
        (leave_presence-Keeps safe leaving F.leaving_channel _ channel id _ bound
          (λ c i other l. ground arith)
          (unsubscribe-Inv leaving w id channel
            (λ _. ground (arith, eq_iff channel channel, nat_eq_iff id id))
            (Inv-mono F leaving w (omega arith) (λ i u. u) (λ c i _ l. ground arith)
              (λ k i _ a l. ground arith) (λ k i a. a) v)))
        (refresh_channel_gauge-Inv F)
    where
      leaving : Frame
      leaving = record F {
        leaving_channel = λ c i. F.leaving_channel c i || (channel == c && id == i);
      }

  pub on_publish-Keeps :
      (id : ClientId) (channel : String) (payload : Payload) (w : Worker R)
      → Inv F w
      → Keeps F (on_publish deliver id channel payload w)
  unfolding on_publish
  on_publish-Keeps id channel payload w v =
      for_each-Keeps safe F _ (Presence.subscribers channel w.presence) (published w)
        (λ target s h. unless-Keeps safe F (target == id) target _ s bound h) (stats-Inv F _ w v)

  pub on_presence-Keeps :
      (id : ClientId) (channel : String) (w : Worker R)
      → Inv F w
      → Keeps F (on_presence deliver id channel w)
  unfolding on_presence
  on_presence-Keeps id channel w v = safe.at F id _ w bound v

-- ===== src/Realtime/Hub/Delivery.antt =====
-- Deliveries, farewells and reaps (crates/atomo_realtime/src/hub.rs). `deliver` may reap the client,
-- whose farewells are deliveries again: what delivers takes the delivery as an argument, and `deliver`
-- ties the knot on fuel, one unit for each nested reap.
use atomo.Prelude.{
  ℕ, zero, suc, String, Option, none, some, List, ◌==◌, if◌then◌else◌, nat_key, string_key,
}
use atomo.Prelude.Map.{get, insert, remove, set_remove}
use atomo.Prelude.Exec.{done, panic, out_of_fuel, ◌>>◌, pure, modify, for_each}
use atomo.Realtime.Protocol.{ClientId, ServerMsg}
use atomo.Realtime.Runtime.{Runtime}
use atomo.Realtime.Presence
use atomo.Realtime.Presence.{Presence}
use atomo.Realtime.Sessions
use atomo.Realtime.Sessions.{
  CoordinatorLeavePolicy, SessionMember, Sessions, JoinOutcome, LeaveOutcome, Leaving,
  CoordinatorChange,
}
use atomo.Realtime.Hub.State.{
  Delivery, sent, dropped, gone, try_deliver, bump, ClientState, Action, Deliver, with_stats,
  refresh_channel_gauge, refresh_session_gauge, refresh_client_gauge, update_client, principal_id,
}

-- The handlers, over the delivery of one frame.
module _ {R : Runtime} (deliver : Deliver R) where
  unfoldable pub broadcast_except : String → ClientId → ServerMsg → Action R
  unfolding Presence.subscribers
  broadcast_except channel except msg w =
      for_each (Presence.subscribers channel w.presence)
        (λ target. if target == except then pure tt else deliver target msg) w

  -- `if self.presence.leave(..) { .. }` with the farewell to the rest of the channel.
  unfoldable pub say_left : Option String → String → ClientId → Action R
  say_left none channel id = pure tt
  say_left (some who) channel id = broadcast_except channel id (ServerMsg.left channel who)

  unfoldable pub leave_presence : Option String → String → ClientId → Action R
  unfolding say_left Presence.leave
  leave_presence who channel id w =
      let (removed, p) = Presence.leave channel id w.presence in
      (if removed then say_left who channel id else pure tt) (record w { presence = p })

  unfoldable pub leave_channel : ClientId → String → Action R
  unfolding leave_presence principal_id
  leave_channel id channel w = leave_presence (principal_id id w) channel id w

  -- The frames to the members that remain after a `leave`.
  unfoldable pub evict : String → SessionMember → Action R
  unfolding update_client
  evict session m = do
    modify
        (update_client m.client_id (λ cs. record cs { sessions = set_remove session cs.sessions }))
    deliver m.client_id (ServerMsg.session_closed session "coordinator_left")

  unfoldable pub announce : String → ServerMsg → SessionMember → SessionMember → Action R
  announce session farewell coord m = do
    deliver m.client_id farewell
    deliver m.client_id (ServerMsg.coordinator_changed session coord.slot coord.principal_id)

  unfoldable pub notify_rest :
      String → ServerMsg → CoordinatorChange → List SessionMember → Action R
  unfolding evict announce
  notify_rest session farewell CoordinatorChange.closed remaining =
      for_each remaining (evict session)
  notify_rest session farewell (CoordinatorChange.reelected coord) remaining =
      for_each remaining (announce session farewell coord)
  notify_rest session farewell CoordinatorChange.unchanged remaining =
      for_each remaining (λ m. deliver m.client_id farewell)

  unfoldable pub after_leave : Leaving → ClientId → String → Action R
  unfolding update_client notify_rest refresh_session_gauge
  after_leave Leaving.not_member id session w = done (tt, w)
  after_leave Leaving.panics id session w = panic
  after_leave (Leaving.leaves outcome ss) id session w =
      (do
        modify (update_client id (λ cs. record cs { sessions = set_remove session cs.sessions }))
        notify_rest session
            (ServerMsg.member_left session outcome.member.slot outcome.member.principal_id)
            outcome.change outcome.remaining
        modify refresh_session_gauge)
        (record w { sessions = ss })

  unfoldable pub leave_session : ClientId → String → Action R
  unfolding after_leave Sessions.leave
  leave_session id session w =
      after_leave (Sessions.leave session id w.session_policy w.sessions) id session w

  -- The body of `on_disconnect` for a client that was there, and is out of the map already.
  unfoldable pub reap : ClientState R → ClientId → Action R
  unfolding leave_presence leave_session refresh_channel_gauge
  reap cs id = do
    for_each cs.subscriptions (λ channel. leave_presence (some cs.principal.id) channel id)
    for_each cs.sessions (λ session. leave_session id session)
    modify (with_stats (λ s. record s { connections_closed = bump s.connections_closed }))
    modify refresh_client_gauge
    modify refresh_channel_gauge

  unfoldable pub disconnect_found : Option (ClientState R) → ClientId → Action R
  unfolding reap
  disconnect_found none id w = done (tt, w)
  disconnect_found (some cs) id w = reap cs id (record w { clients = remove id w.clients })

  unfoldable pub on_disconnect : ClientId → Action R
  unfolding disconnect_found
  on_disconnect id w = disconnect_found (get id w.clients) id w

-- `deliver`, over what reaps a client whose socket has closed.
module _ {R : Runtime} (reaped : ClientId → Action R) where
  unfoldable pub account : Delivery → ClientId → Action R
  account sent id =
      modify (with_stats (λ s. record s { messages_delivered = bump s.messages_delivered }))
  account dropped id =
      modify (with_stats (λ s. record s { dropped_frames = bump s.dropped_frames }))
  account gone id = reaped id

  unfoldable pub deliver_found : Option (ClientState R) → ClientId → ServerMsg → Action R
  unfolding account try_deliver
  deliver_found none id msg w = done (tt, w)
  deliver_found (some cs) id msg w =
      let (d, out) = try_deliver R cs.out msg in
      account d id (record w { clients = insert id (record cs { out = out }) w.clients })

module _ {R : Runtime} where
  unfoldable pub deliver : ℕ → Deliver R
  unfolding deliver_found on_disconnect
  deliver zero id msg w = deliver_found (λ _ _. out_of_fuel) (get id w.clients) id msg w
  deliver (suc fuel) id msg w =
      deliver_found (on_disconnect (deliver fuel)) (get id w.clients) id msg w

-- ===== src/Realtime/Hub/Commands.antt =====
-- The handlers of the commands, and the hub's loop (crates/atomo_realtime/src/hub.rs).
use atomo.Prelude.{
  ℕ, String, Bool, true, false, not, Option, none, some, List, map, length, filter, ◌==◌,
  if◌then◌else◌, nat_key, string_key,
}
use Prim.Native.String.{◌++◌ as str_append}
use atomo.Prelude.Map.{get, insert, set_insert, set_remove}
use atomo.Prelude.Exec.{done, Exec, ◌>>=◌, ◌>>◌, pure, modify, for_each}
use atomo.Realtime.Protocol.{ClientId, Payload, ClientMsg, MemberInfo, ServerMsg}
use atomo.Realtime.Runtime.{Floats, Runtime}
use atomo.Realtime.Presence
use atomo.Realtime.Presence.{Presence}
use atomo.Realtime.RateLimit
use atomo.Realtime.RateLimit.{RateLimit, RateLimiter}
use atomo.Realtime.Sessions
use atomo.Realtime.Sessions.{
  CoordinatorLeavePolicy, SessionMember, Sessions, JoinOutcome, LeaveOutcome, Leaving,
  CoordinatorChange,
}
use atomo.Realtime.Hub.State.{
  Command, ClientState, Worker, Action, Deliver, published, refresh_channel_gauge,
  refresh_session_gauge, update_client, principal_id, on_connect,
}
use atomo.Realtime.Hub.Delivery.{
  broadcast_except, leave_channel, leave_session, on_disconnect, deliver,
}

-- The bucket of a client, if joins are throttled, asked for one token.
module _ {F : Floats} where
  abbrev pub limited : Option (RateLimiter F) → ℕ → Bool × Option (RateLimiter F)
  limited none now = (true, none)
  limited (some l) now = let (allowed, l') = RateLimit.try_acquire now l in (allowed, some l')

abbrev pub infos : List SessionMember → List MemberInfo
infos = map (λ m. record { slot = m.slot; id = m.principal_id })

-- The handlers of the commands.
module _ {R : Runtime} (deliver : Deliver R) where
  -- Whether the join may go on.
  unfoldable pub allow_found : Option (ClientState R) → ℕ → ClientId → Exec (Worker R) Bool
  unfolding RateLimit.try_acquire
  allow_found none now id w = done (false, w)
  allow_found (some cs) now id w =
      let (allowed, limiter) = limited cs.join_limiter now in
      (do
        (if allowed then pure tt else deliver id (ServerMsg.error "join rate limit exceeded"))
        pure allowed)
        (record w { clients = insert id (record cs { join_limiter = limiter }) w.clients })

  unfoldable pub allow_join : ℕ → ClientId → Exec (Worker R) Bool
  unfolding allow_found
  allow_join now id w = allow_found (get id w.clients) now id w

  unfoldable pub greet : Bool → String → ClientId → String → Action R
  unfolding broadcast_except
  greet newly channel id who =
      if newly then broadcast_except deliver channel id (ServerMsg.joined channel who) else pure tt

  unfoldable pub subscribed : Option String → ClientId → String → Action R
  unfolding greet Presence.join Presence.snapshot update_client refresh_channel_gauge
  subscribed none id channel w = done (tt, w)
  subscribed (some who) id channel w =
      let (newly, p) = Presence.join channel id who w.presence in
      (do
        modify (
            update_client id
              (λ cs. record cs { subscriptions = set_insert channel cs.subscriptions }))
        deliver id (ServerMsg.presence channel (Presence.snapshot R.text_le channel p))
        greet newly channel id who
        modify refresh_channel_gauge)
        (record w { presence = p })

  unfoldable pub on_subscribe : ℕ → ClientId → String → Action R
  unfolding allow_join subscribed principal_id
  on_subscribe now id channel = do
    allowed ← allow_join now id
    if allowed then (λ w. subscribed (principal_id id w) id channel w) else pure tt

  unfoldable pub on_unsubscribe : ClientId → String → Action R
  unfolding update_client leave_channel refresh_channel_gauge
  on_unsubscribe id channel = do
    modify
        (update_client id (λ cs. record cs { subscriptions = set_remove channel cs.subscriptions }))
    leave_channel deliver id channel
    modify refresh_channel_gauge

  unfoldable pub on_publish : ClientId → String → Payload → Action R
  unfolding Presence.subscribers principal_id
  on_publish id channel payload w =
      for_each (Presence.subscribers channel w.presence)
        (λ target.
          if target == id
          then pure tt
          else deliver target (ServerMsg.message channel (principal_id id w) payload))
        (published w)

  unfoldable pub on_presence : ClientId → String → Action R
  unfolding Presence.snapshot
  on_presence id channel w =
      deliver id (ServerMsg.presence channel (Presence.snapshot R.text_le channel w.presence)) w

  unfoldable pub introduce : JoinOutcome → ClientId → String → String → Action R
  introduce outcome id session who = for_each outcome.roster (λ m.
      if m.client_id == id
      then pure tt
      else deliver m.client_id (ServerMsg.member_joined session outcome.slot who))

  unfoldable pub session_joined : Option String → ClientId → String → Action R
  unfolding introduce Sessions.join update_client refresh_session_gauge
  session_joined none id session w = done (tt, w)
  session_joined (some who) id session w =
      let (outcome, ss) = Sessions.join session id who w.sessions in
      (do
        modify (update_client id (λ cs. record cs { sessions = set_insert session cs.sessions }))
        deliver id (
            ServerMsg.session_start session outcome.slot outcome.is_coordinator
              (infos outcome.roster))
        introduce outcome id session who
        modify refresh_session_gauge)
        (record w { sessions = ss })

  unfoldable pub on_session_join : ℕ → ClientId → String → Action R
  unfolding allow_join session_joined principal_id
  on_session_join now id session = do
    allowed ← allow_join now id
    if allowed then (λ w. session_joined (principal_id id w) id session w) else pure tt

  -- Member to coordinator.
  unfoldable pub relay : Option SessionMember → Option ClientId → String → Payload → Action R
  relay none coordinator session payload w = done (tt, w)
  relay (some sender) none session payload w = done (tt, w)
  relay (some sender) (some coordinator) session payload w =
      deliver coordinator (ServerMsg.from_member session sender.principal_id sender.slot payload)
        (published w)

  unfoldable pub on_to_coordinator : ClientId → String → Payload → Action R
  unfolding relay Sessions.member Sessions.coordinator
  on_to_coordinator id session payload w =
      relay (Sessions.member session id w.sessions) (Sessions.coordinator session w.sessions)
        session payload w

  -- Coordinator to members.
  unfoldable pub on_to_members : ClientId → String → Payload → Action R
  unfolding Sessions.is_coordinator Sessions.roster
  on_to_members id session payload w =
      if Sessions.is_coordinator session id w.sessions
      then for_each
          (map (λ m. m.client_id)
            (filter (λ m. not (m.client_id == id)) (Sessions.roster session w.sessions)))
          (λ cid. deliver cid (ServerMsg.from_coordinator session payload)) (published w)
      else deliver id
          (ServerMsg.error (str_append "not the coordinator of session '" (str_append session "'")))
          w

  -- One turn of the loop `run`, at the time `now`.
  unfoldable pub handle : ℕ → Command R → Action R
  unfolding on_connect on_subscribe on_unsubscribe on_publish on_presence on_session_join
      leave_session on_to_coordinator on_to_members on_disconnect
  handle now (Command.connect id principal out) = modify (on_connect now id principal out)
  handle now (Command.subscribe id channel) = on_subscribe now id channel
  handle now (Command.unsubscribe id channel) = on_unsubscribe id channel
  handle now (Command.publish id channel payload) = on_publish id channel payload
  handle now (Command.presence id channel) = on_presence id channel
  handle now (Command.session_join id session) = on_session_join now id session
  handle now (Command.session_leave id session) = leave_session deliver id session
  handle now (Command.to_coordinator id session payload) = on_to_coordinator id session payload
  handle now (Command.to_members id session payload) = on_to_members id session payload
  handle now (Command.disconnect id) = on_disconnect deliver id

module _ {R : Runtime} where
  -- A reap takes a client out of the map, so as many units of fuel as there are clients suffice.
  unfoldable pub step : ℕ × Command R → Action R
  unfolding handle deliver
  step (now, command) w = handle (deliver (length w.clients)) now command w

  -- The loop over the commands that were received, with the time at which each is taken up.
  unfoldable pub run : List (ℕ × Command R) → Action R
  unfolding step
  run commands = for_each commands step

  -- `ClientHandle::dispatch`.
  unfoldable pub dispatch : ClientId → ClientMsg → Command R
  dispatch id (ClientMsg.subscribe channel) = Command.subscribe id channel
  dispatch id (ClientMsg.unsubscribe channel) = Command.unsubscribe id channel
  dispatch id (ClientMsg.publish channel payload) = Command.publish id channel payload
  dispatch id (ClientMsg.presence channel) = Command.presence id channel
  dispatch id (ClientMsg.session_join session) = Command.session_join id session
  dispatch id (ClientMsg.session_leave session) = Command.session_leave id session
  dispatch id (ClientMsg.to_coordinator session payload) = Command.to_coordinator id session payload
  dispatch id (ClientMsg.to_members session payload) = Command.to_members id session payload

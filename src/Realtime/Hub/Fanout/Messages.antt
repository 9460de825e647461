-- ===== src/Realtime/Hub/Fanout/Messages.antt =====
-- Whom published payloads and messages of coordinators reach (crates/atomo_realtime/src/hub.rs).
use Prim.Native.String.{◌++◌ as str_append}
use atomo.Prelude.{
  ℕ, String, Bool, true, false, not, ◌&&◌, List, [], ◌∷◌, ap, arith, ◌==◌, contains, map, filter,
  if◌then◌else◌, nat_key, string_key, All,
}
use atomo.Prelude.Map.{get}
use atomo.Prelude.Exec.{for_each, Ensures, Ensures-mono}
use atomo.Realtime.Protocol.{ClientId, Payload, ServerMsg}
use atomo.Realtime.Runtime.{Runtime}
use atomo.Realtime.Presence
use atomo.Realtime.Presence.Membership.{has, contains-subscribers}
use atomo.Realtime.Sessions
use atomo.Realtime.Sessions.{SessionMember}
use atomo.Realtime.Hub.State.{Worker, published, principal_id}
use atomo.Realtime.Hub.Delivery.{deliver}
use atomo.Realtime.Hub.Commands.{on_publish, on_to_members}
use atomo.Realtime.Hub.Fanout.{AreDistinct, IsOpen, Sent, unless, fan-Sent, deliver-Sent, Sent-same}

-- What `on_to_members` sends: the payload where the client is the coordinator, and else an error.
abbrev pub answer : Bool → String → Payload → ServerMsg
answer true session payload = ServerMsg.from_coordinator session payload
answer false session payload =
    ServerMsg.error (str_append "not the coordinator of session '" (str_append session "'"))

module _ {R : Runtime} where
  -- A payload that is published is offered once to the queue of each member of the channel other than
  -- its publisher, with the publisher's principal, and to nobody else, and channels and sessions stay
  -- as they were; where the members are listed once each, and no member's queue is closed.
  pub on_publish_lem :
      (n : ℕ) (id : ClientId) (channel : String) (payload : Payload) (w : Worker R)
      → let msg = ServerMsg.message channel (principal_id id w) payload in
        AreDistinct (Presence.subscribers channel w.presence)
        → All (λ i. IsOpen msg (get i w.clients)) (Presence.subscribers channel w.presence)
        → Ensures
            (λ _ s. Sent (λ i. has channel i w.presence && not (i == id)) msg w s)
            (on_publish (deliver n) id channel payload w)
  unfolding on_publish unless
  on_publish_lem n id channel payload w d h =
      let msg = ServerMsg.message channel (principal_id id w) payload in
      let ts = Presence.subscribers channel w.presence in
      Ensures-mono (λ _ s. Sent (λ i. contains ts i && not (i == id)) msg w s)
        (λ _ s. Sent (λ i. has channel i w.presence && not (i == id)) msg w s)
        (for_each ts (unless (λ i. i == id) n msg) (published w))
        (λ _ s q.
          Sent-same (λ i. contains ts i && not (i == id))
            (λ i. has channel i w.presence && not (i == id)) msg w s
            (λ i. ap (λ b. b && not (i == id)) (contains-subscribers channel i w.presence)) q)
        (fan-Sent (λ i. i == id) n msg ts (published w) d h)

  -- The members of a session other than the client.
  abbrev pub others : String → ClientId → Worker R → List ClientId
  others session id w =
      map (λ m. m.client_id)
        (filter (λ m. not (m.client_id == id)) (Sessions.roster session w.sessions))

  -- To whom `on_to_members` sends it.
  abbrev pub addressees : Bool → String → ClientId → Worker R → List ClientId
  addressees true session id w = others session id w
  addressees false session id w = id ∷ []

  members-Sent :
      (leads : Bool) (n : ℕ) (id : ClientId) (session : String) (payload : Payload) (w : Worker R)
      → AreDistinct (addressees leads session id w)
      → All
          (λ i. IsOpen (answer leads session payload) (get i w.clients))
          (addressees leads session id w)
      → Ensures
          (λ _ s.
            Sent
              (λ i. contains (addressees leads session id w) i)
              (answer leads session payload)
              w
              s)
          (if leads
            then for_each
                (others session id w)
                (λ cid. deliver n cid (ServerMsg.from_coordinator session payload))
                (published w)
            else deliver n id (answer false session payload) w)
  unfolding unless
  members-Sent true n id session payload w d h =
      let msg = ServerMsg.from_coordinator session payload in
      let ts = others session id w in
      Ensures-mono (λ _ s. Sent (λ i. contains ts i && not false) msg w s)
        (λ _ s. Sent (λ i. contains ts i) msg w s)
        (for_each ts (unless (λ i. false) n msg) (published w))
        (λ _ s q.
          Sent-same (λ i. contains ts i && not false) (λ i. contains ts i) msg w s
            (λ i. ground arith) q)
        (fan-Sent (λ i. false) n msg ts (published w) d h)
  members-Sent false n id session payload w d h =
      Ensures-mono (λ _ s. Sent (λ i. id == i) (answer false session payload) w s)
        (λ _ s. Sent (λ i. contains (id ∷ []) i) (answer false session payload) w s)
        (deliver n id (answer false session payload) w)
        (λ _ s q.
          Sent-same (λ i. id == i) (λ i. contains (id ∷ []) i) (answer false session payload) w s
            (λ i. ground arith) q)
        (deliver-Sent n id (answer false session payload) w h.0)

  -- What a client sends to the members of a session is offered once to the queue of each other member
  -- and to nobody else, if the client is the coordinator; if it is not, then an error is offered to
  -- the client alone; channels and sessions stay as they were; where the addressees are listed once
  -- each, and the queue of none is closed.
  pub on_to_members_lem :
      (n : ℕ) (id : ClientId) (session : String) (payload : Payload) (w : Worker R)
      → let leads = Sessions.is_coordinator session id w.sessions in
        AreDistinct (addressees leads session id w)
        → All
            (λ i. IsOpen (answer leads session payload) (get i w.clients))
            (addressees leads session id w)
        → Ensures
            (λ _ s.
              Sent
                (λ i. contains (addressees leads session id w) i)
                (answer leads session payload)
                w
                s)
            (on_to_members (deliver n) id session payload w)
  unfolding on_to_members
  on_to_members_lem n id session payload w d h =
      members-Sent (Sessions.is_coordinator session id w.sessions) n id session payload w d h

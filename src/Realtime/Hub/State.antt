-- ===== src/Realtime/Hub/State.antt =====
-- The state of the hub's one task (crates/atomo_realtime/src/hub.rs, and client.rs).
use atomo.Prelude.{
  ℕ, ◌+◌, ◌%◌, ◌^◌, String, Option, none, some, List, [], length, nat_key, string_key,
}
use atomo.Prelude.Map.{Map, get, insert}
use atomo.Prelude.Exec.{Exec}
use atomo.Realtime.Protocol.{ClientId, Payload, Principal, ServerMsg}
use atomo.Realtime.Runtime.{Floats, Runtime, TrySend, accepted, full, closed}
use atomo.Realtime.Presence
use atomo.Realtime.Presence.{Presence}
use atomo.Realtime.RateLimit
use atomo.Realtime.RateLimit.{RateLimit, RateLimiter}
use atomo.Realtime.Sessions
use atomo.Realtime.Sessions.{
  CoordinatorLeavePolicy, SessionMember, Sessions, JoinOutcome, LeaveOutcome, Leaving,
  CoordinatorChange,
}

-- The outcome of one delivery (client.rs).
pub data Delivery : Type 0 where
  sent dropped gone : Delivery

unfoldable pub delivery : TrySend → Delivery
delivery accepted = sent
delivery full = dropped
delivery closed = gone

unfoldable pub try_deliver : (R : Runtime) → R.Sender → ServerMsg → Delivery × R.Sender
unfolding delivery
try_deliver R out msg = let (result, out') = R.try_send out msg in (delivery result, out')

pub data Command (R : Runtime) : Type 0 where
  connect : ClientId → Principal → R.Sender → Command R
  subscribe unsubscribe presence session_join session_leave : ClientId → String → Command R
  publish to_coordinator to_members : ClientId → String → Payload → Command R
  disconnect : ClientId → Command R

pub record HubConfig (R : Runtime) : Type 0 where
  pub coordinator_leave_policy : CoordinatorLeavePolicy
  pub join_rate : Option (RateLimit R.floats)

-- Counters are `AtomicU64`s: additions wrap round.
pub record Stats : Type 0 where
  pub messages_published : ℕ
  pub messages_delivered : ℕ
  pub dropped_frames : ℕ
  pub connections_opened : ℕ
  pub connections_closed : ℕ
  pub active_clients : ℕ
  pub active_channels : ℕ
  pub active_sessions : ℕ

abbrev pub no_stats : Stats
no_stats = record {
  messages_published = 0;
  messages_delivered = 0;
  dropped_frames = 0;
  connections_opened = 0;
  connections_closed = 0;
  active_clients = 0;
  active_channels = 0;
  active_sessions = 0;
}

abbrev pub u64_mod : ℕ
u64_mod = 2 ^ 64

abbrev pub bump : ℕ → ℕ
bump n = (n + 1) % u64_mod

pub record ClientState (R : Runtime) : Type 0 where
  pub out : R.Sender
  pub principal : Principal
  pub subscriptions : List String
  pub sessions : List String
  pub join_limiter : Option (RateLimiter R.floats)

pub record Worker (R : Runtime) : Type 0 where
  pub clients : Map ClientId (ClientState R)
  pub presence : Presence
  pub sessions : Sessions
  pub session_policy : CoordinatorLeavePolicy
  pub join_rate : Option (RateLimit R.floats)
  pub stats : Stats

-- A handler: it changes the worker, and returns nothing.
abbrev pub Action : Runtime → Type 0
Action R = Exec (Worker R) (Unit {0})

abbrev pub Deliver : Runtime → Type 0
Deliver R = ClientId → ServerMsg → Action R

module _ {F : Floats} where
  unfoldable pub join_limiter : ℕ → Option (RateLimit F) → Option (RateLimiter F)
  unfolding RateLimit.new
  join_limiter now none = none
  join_limiter now (some limit) = some (RateLimit.new limit now)

module _ {R : Runtime} where
  unfoldable pub new : HubConfig R → Worker R
  unfolding Presence.new Sessions.new
  new config = record {
    clients = [];
    presence = Presence.new;
    sessions = Sessions.new;
    session_policy = config.coordinator_leave_policy;
    join_rate = config.join_rate;
    stats = no_stats;
  }

  abbrev pub with_stats : (Stats → Stats) → Worker R → Worker R
  with_stats f w = record w { stats = f w.stats }

  abbrev pub published : Worker R → Worker R
  published = with_stats (λ s. record s { messages_published = bump s.messages_published })

  unfoldable pub refresh_channel_gauge : Worker R → Worker R
  unfolding Presence.channel_count
  refresh_channel_gauge w =
      with_stats (λ s. record s { active_channels = Presence.channel_count w.presence % u64_mod }) w

  unfoldable pub refresh_session_gauge : Worker R → Worker R
  unfolding Sessions.count
  refresh_session_gauge w =
      with_stats (λ s. record s { active_sessions = Sessions.count w.sessions % u64_mod }) w

  abbrev pub refresh_client_gauge : Worker R → Worker R
  refresh_client_gauge w =
      with_stats (λ s. record s { active_clients = length w.clients % u64_mod }) w

  -- `if let Some(cs) = self.clients.get_mut(&id) { … }`
  abbrev pub update_found :
      Option (ClientState R) → ClientId → (ClientState R → ClientState R) → Worker R → Worker R
  update_found none id f w = w
  update_found (some cs) id f w = record w { clients = insert id (f cs) w.clients }

  unfoldable pub update_client : ClientId → (ClientState R → ClientState R) → Worker R → Worker R
  update_client id f w = update_found (get id w.clients) id f w

  -- The id of a client's principal, while the client is connected.
  abbrev pub id_of : Option (ClientState R) → Option String
  id_of none = none
  id_of (some cs) = some cs.principal.id

  unfoldable pub principal_id : ClientId → Worker R → Option String
  principal_id id w = id_of (get id w.clients)

  unfoldable pub on_connect : ℕ → ClientId → Principal → R.Sender → Worker R → Worker R
  unfolding join_limiter
  on_connect now id principal out w = refresh_client_gauge (
      with_stats (λ s. record s { connections_opened = bump s.connections_opened })
        (record w {
          clients =
              insert id
                (record {
                  out = out;
                  principal = principal;
                  subscriptions = [];
                  sessions = [];
                  join_limiter = join_limiter now w.join_rate;
                })
                w.clients;
        }))

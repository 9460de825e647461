-- ===== src/Realtime/Hub/Invariant.antt =====
-- What holds of the hub's state while it works (crates/atomo_realtime/src/hub.rs): nobody is listed
-- in a channel or in a session who is not a connected client that knows of it, but for the
-- memberships that are just being taken down.
use atomo.Prelude.{
  ℕ, suc, ◌≤◌, String, Bool, true, ◌&&◌, ◌||◌, Option, none, some, List, [], ◌≡◌, refl, arith, ◌==◌,
  length, contains, is_some, nat_eq_iff, nat_key, string_key, eq_iff,
}
use atomo.Prelude.Map.{
  get, insert, remove, set_remove, get-insert, get-remove, length-insert_there, length-remove-lt,
  contains-set_remove,
}
use atomo.Realtime.Protocol.{ClientId}
use atomo.Realtime.Runtime.{Runtime}
use atomo.Realtime.Presence.Membership.{has}
use atomo.Realtime.Sessions.Validity.{AllValid}
use atomo.Realtime.Sessions.Roles.{in_session}
use atomo.Realtime.Hub.State.{
  ClientState, Worker, Stats, update_found, update_client, refresh_channel_gauge,
  refresh_session_gauge,
}

-- What the invariant is relative to.
pub record Frame : Type 0 where
  -- At most so many clients are connected.
  pub bound : ℕ
  -- The ids that have been connected so far.
  pub used : ClientId → Bool
  -- The memberships of channels, and of sessions, that are being taken down.
  pub leaving_channel : String → ClientId → Bool
  pub leaving_session : String → ClientId → Bool
  -- Nobody else is in a session.
  pub allowed : String → ClientId → Bool

module _ {R : Runtime} where
  abbrev pub subscriptions_of : Option (ClientState R) → List String
  subscriptions_of none = []
  subscriptions_of (some cs) = cs.subscriptions

  abbrev pub sessions_of : Option (ClientState R) → List String
  sessions_of none = []
  sessions_of (some cs) = cs.sessions

  -- The client is connected and has the channel among its subscriptions.
  abbrev pub subscribes : String → ClientId → Worker R → Bool
  subscribes c i w = contains (subscriptions_of (get i w.clients)) c

  -- The client is connected and has the session among its own.
  abbrev pub attends : String → ClientId → Worker R → Bool
  attends n i w = contains (sessions_of (get i w.clients)) n

  pub record Inv (F : Frame) (w : Worker R) : Type 0 where
    pub bounded : length w.clients ≤ F.bound
    pub known : (i : ClientId) → is_some (get i w.clients) ≡ true → F.used i ≡ true
    pub channels :
        (c : String) (i : ClientId)
        → has c i w.presence ≡ true
        → (F.leaving_channel c i || subscribes c i w) ≡ true
    pub sessions :
        (n : String) (i : ClientId)
        → in_session n i w.sessions ≡ true
        → (F.leaving_session n i || attends n i w) ≡ true
    pub within :
        (n : String) (i : ClientId) → in_session n i w.sessions ≡ true → F.allowed n i ≡ true
    pub valid : AllValid w.sessions

  -- The counters do not matter.
  pub stats-Inv : (F : Frame) (s : Stats) (w : Worker R) → Inv F w → Inv F (record w { stats = s })
  stats-Inv F s w v = record {
    bounded = v.bounded;
    known = v.known;
    channels = v.channels;
    sessions = v.sessions;
    within = v.within;
    valid = v.valid;
  }

  pub refresh_channel_gauge-Inv :
      (F : Frame) (w : Worker R) → Inv F w → Inv F (refresh_channel_gauge w)
  unfolding refresh_channel_gauge
  refresh_channel_gauge-Inv F w v = stats-Inv F _ w v

  pub refresh_session_gauge-Inv :
      (F : Frame) (w : Worker R) → Inv F w → Inv F (refresh_session_gauge w)
  unfolding refresh_session_gauge
  refresh_session_gauge-Inv F w v = stats-Inv F _ w v

  -- A client's entry is replaced by one that keeps its lists, or adds to them.
  pub insert-Inv :
      (F : Frame) (w : Worker R) (id : ClientId) (old cs : ClientState R)
      → get id w.clients ≡ some old
      → ((c : String) → contains old.subscriptions c ≡ true → contains cs.subscriptions c ≡ true)
      → ((n : String) → contains old.sessions n ≡ true → contains cs.sessions n ≡ true)
      → Inv F w
      → Inv F (record w { clients = insert id cs w.clients })
  insert-Inv F w id old cs e subs sess v = record {
    bounded = omega (arith, v.bounded, length-insert_there id cs w.clients e);
    known = λ i h. ground (arith, v.known i, nat_eq_iff id i, get-insert id i cs w.clients);
    channels = λ c i h.
        ground (arith, v.channels c i h, subs c, nat_eq_iff id i, get-insert id i cs w.clients);
    sessions = λ n i h.
        ground (arith, v.sessions n i h, sess n, nat_eq_iff id i, get-insert id i cs w.clients);
    within = v.within;
    valid = v.valid;
  }

  unsubscribe_found :
      (F : Frame) (w : Worker R) (id : ClientId) (channel : String) (o : Option (ClientState R))
      → get id w.clients ≡ o
      → (has channel id w.presence ≡ true → F.leaving_channel channel id ≡ true)
      → Inv F w
      → Inv F (
          update_found o id
            (λ cs. record cs { subscriptions = set_remove channel cs.subscriptions })
            w)
  unsubscribe_found F w id channel none e out v = v
  unsubscribe_found F w id channel (some old) e out v = record {
    bounded = omega (arith, v.bounded, length-insert_there id fewer w.clients e);
    known = λ i h. ground (arith, v.known i, nat_eq_iff id i, get-insert id i fewer w.clients);
    channels = λ c i h. ground (
      arith,
      v.channels c i h,
      nat_eq_iff id i,
      eq_iff channel c,
      get-insert id i fewer w.clients,
      contains-set_remove channel c old.subscriptions,
    );
    sessions =
        λ n i h. ground (arith, v.sessions n i h, nat_eq_iff id i, get-insert id i fewer w.clients);
    within = v.within;
    valid = v.valid;
  }
    where
      fewer : ClientState R
      fewer = record old { subscriptions = set_remove channel old.subscriptions }

  -- A channel is struck off a client's list once the client is not listed there, or is leaving.
  pub unsubscribe-Inv :
      (F : Frame) (w : Worker R) (id : ClientId) (channel : String)
      → (has channel id w.presence ≡ true → F.leaving_channel channel id ≡ true)
      → Inv F w
      → Inv F (
          update_client id
            (λ cs. record cs { subscriptions = set_remove channel cs.subscriptions })
            w)
  unfolding update_client
  unsubscribe-Inv F w id channel = unsubscribe_found F w id channel (get id w.clients) refl

  unattend_found :
      (F : Frame) (w : Worker R) (id : ClientId) (session : String) (o : Option (ClientState R))
      → get id w.clients ≡ o
      → (in_session session id w.sessions ≡ true → F.leaving_session session id ≡ true)
      → Inv F w
      → Inv F (update_found o id (λ cs. record cs { sessions = set_remove session cs.sessions }) w)
  unattend_found F w id session none e out v = v
  unattend_found F w id session (some old) e out v = record {
    bounded = omega (arith, v.bounded, length-insert_there id fewer w.clients e);
    known = λ i h. ground (arith, v.known i, nat_eq_iff id i, get-insert id i fewer w.clients);
    channels =
        λ c i h. ground (arith, v.channels c i h, nat_eq_iff id i, get-insert id i fewer w.clients);
    sessions = λ n i h. ground (
      arith,
      v.sessions n i h,
      nat_eq_iff id i,
      eq_iff session n,
      get-insert id i fewer w.clients,
      contains-set_remove session n old.sessions,
    );
    within = v.within;
    valid = v.valid;
  }
    where
      fewer : ClientState R
      fewer = record old { sessions = set_remove session old.sessions }

  -- So is a session.
  pub unattend-Inv :
      (F : Frame) (w : Worker R) (id : ClientId) (session : String)
      → (in_session session id w.sessions ≡ true → F.leaving_session session id ≡ true)
      → Inv F w
      → Inv F (update_client id (λ cs. record cs { sessions = set_remove session cs.sessions }) w)
  unfolding update_client
  unattend-Inv F w id session = unattend_found F w id session (get id w.clients) refl

  -- The client is taken out of the map: its memberships are to be taken down.
  pub remove-Inv :
      (F : Frame) (n : ℕ) (w : Worker R) (id : ClientId) (cs : ClientState R)
      → get id w.clients ≡ some cs
      → F.bound ≡ suc n
      → Inv F w
      → Inv
          (record F {
            bound = n;
            leaving_channel =
                λ c i. F.leaving_channel c i || (id == i && contains cs.subscriptions c);
            leaving_session = λ c i. F.leaving_session c i || (id == i && contains cs.sessions c);
          })
          (record w { clients = remove id w.clients })
  remove-Inv F n w id cs e b v = record {
    bounded = omega (arith, v.bounded, length-remove-lt id w.clients e);
    known = λ i h. ground (arith, v.known i, get-remove id i w.clients);
    channels =
        λ c i h. ground (arith, v.channels c i h, nat_eq_iff id i, get-remove id i w.clients);
    sessions =
        λ c i h. ground (arith, v.sessions c i h, nat_eq_iff id i, get-remove id i w.clients);
    within = v.within;
    valid = v.valid;
  }

  -- A frame may be widened, and what is not held by the state any more need not be pending.
  pub Inv-mono :
      (F G : Frame) (w : Worker R)
      → F.bound ≤ G.bound
      → ((i : ClientId) → F.used i ≡ true → G.used i ≡ true)
      → ((c : String) (i : ClientId)
          → has c i w.presence ≡ true
          → F.leaving_channel c i ≡ true
          → (G.leaving_channel c i || subscribes c i w) ≡ true)
      → ((n : String) (i : ClientId)
          → in_session n i w.sessions ≡ true
          → F.allowed n i ≡ true
          → F.leaving_session n i ≡ true
          → (G.leaving_session n i || attends n i w) ≡ true)
      → ((n : String) (i : ClientId) → F.allowed n i ≡ true → G.allowed n i ≡ true)
      → Inv F w
      → Inv G w
  Inv-mono F G w b u lc ls al v = record {
    bounded = omega (arith, v.bounded);
    known = λ i h. u i (v.known i h);
    channels = λ c i h. ground (arith, v.channels c i h, lc c i h);
    sessions = λ n i h. ground (arith, v.sessions n i h, v.within n i h, ls n i h);
    within = λ n i h. al n i (v.within n i h);
    valid = v.valid;
  }

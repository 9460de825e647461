-- ===== src/Examples/Hub.antt =====
-- Two clients in a hub (crates/atomo_realtime/src/hub.rs), over queues that count the frames they
-- still have room for, floats that count, and texts ordered by length.
use Prim.Native.String.{len}
use atomo.Prelude.{
  ℕ, zero, suc, ◌+◌, ◌-◌, ◌*◌, ◌/◌, min, String, Bool, false, none, some, List, [], ◌∷◌, refl,
  arith, leb, true, ◌&&◌, not, ◌==◌, contains, nat_key, string_key,
}
use atomo.Prelude.Exec.{Ensures}
use atomo.Realtime.Protocol.{ServerMsg, Principal}
use atomo.Realtime.Runtime.{Floats, TrySend, accepted, full, closed, Runtime}
use atomo.Realtime.RateLimit.{RateLimiter}
use atomo.Realtime.RateLimit.Bounds.{IsFloats}
use atomo.Realtime.Sessions.{CoordinatorLeavePolicy}
use atomo.Prelude.Map.{get, keys, values}
use atomo.Realtime.Presence
use atomo.Realtime.Presence.Membership.{has}
use atomo.Realtime.Sessions
use atomo.Realtime.Hub.Delivery.{deliver}
use atomo.Realtime.Hub.Fanout.{Sent}
use atomo.Realtime.Hub.Fanout.Messages.{addressees, answer, on_publish_lem, on_to_members_lem}
use atomo.Realtime.Hub.State.{Command, HubConfig, ClientState, Worker, principal_id, new}
use atomo.Realtime.Hub.Commands.{on_publish, on_to_members, run}
use atomo.Realtime.Hub.History.{IsSound, Issued, run-IsSound}

abbrev pub whole_floats : Floats
whole_floats = record {
  Float = ℕ;
  one = 1;
  of_u32 = λ n. n;
  add = λ a b. a + b;
  sub = λ a b. a - b;
  mul = λ a b. a * b;
  fmin = λ a b. min a b;
  ge = λ a b. leb b a;
  secs = λ ns. ns / 1000000000;
}

pub data Queue : Type 0 where
  room : ℕ → Queue
  hung_up : Queue

abbrev send_to : Queue → ServerMsg → TrySend × Queue
send_to (room zero) m = (full, room zero)
send_to (room (suc n)) m = (accepted, room n)
send_to hung_up m = (closed, hung_up)

abbrev pub shorter : String → String → Bool
shorter a b = leb (len a) (len b)

abbrev pub queues : Runtime
queues = record { floats = whole_floats; text_le = shorter; Sender = Queue; try_send = send_to }

whole_floats-IsFloats : IsFloats whole_floats
whole_floats-IsFloats = record {
  min_bound = λ a b. ground arith;
  refl_of_u32 = λ n. ground arith;
  sub_bound = λ a b h. ground arith;
}

abbrev alice : Principal
alice = record { id = "alice"; role = none; anonymous = false }

abbrev bob : Principal
bob = record { id = "bob"; role = some "worker"; anonymous = false }

abbrev config : HubConfig queues
config = record {
  coordinator_leave_policy = CoordinatorLeavePolicy.reelect;
  join_rate = some (record { burst = 3; per_sec = 1 });
}

-- Bob's receiver has hung up, so the first frame for him reaps him.
abbrev history : List (ℕ × Command queues)
history =
    (0, Command.connect 1 alice (room 4))
    ∷ (1, Command.session_join 1 "room")
    ∷ (2, Command.connect 2 bob hung_up)
    ∷ (3, Command.session_join 2 "room")
    ∷ (4, Command.subscribe 1 "news")
    ∷ (5, Command.publish 1 "news" "{}")
    ∷ (6, Command.disconnect 1)
    ∷ []

history-Issued : Issued {R = queues} (λ i. false) history
history-Issued = (refl, (tt, (refl, (tt, (tt, (tt, (tt, tt)))))))

run-IsSound_example : Ensures (λ _ w. IsSound w) (run history (new config))
run-IsSound_example = run-IsSound config history history-Issued

abbrev bucket : RateLimiter whole_floats
bucket = record { burst = 3; per_sec = 1; tokens = 2; last = 0 }

abbrev reader : Principal → Queue → ClientState queues
reader p q = record {
  out = q;
  principal = p;
  subscriptions = "news" ∷ [];
  sessions = "room" ∷ [];
  join_limiter = none;
}

-- Alice and Bob read one channel, and are in one session, which Alice coordinates.
abbrev hub : Worker queues
hub = record (new config) {
  clients = (1, reader alice (room 4)) ∷ (2, reader bob (room 0)) ∷ [];
  presence = record { channels = ("news", (1, "alice") ∷ (2, "bob") ∷ []) ∷ [] };
  sessions = record {
    sessions =
        (
          "room",
          record {
            order = 1 ∷ 2 ∷ [];
            members =
                (1, record { client_id = 1; principal_id = "alice"; slot = 0 })
                ∷ (2, record { client_id = 2; principal_id = "bob"; slot = 1 })
                ∷ [];
            coordinator = 1;
            next_slot = 2;
          },
        )
        ∷ [];
  };
}

on_publish_lem_example :
    Ensures
      (λ _ s.
        Sent
          (λ i. has "news" i hub.presence && not (i == 1))
          (ServerMsg.message "news" (principal_id 1 hub) "{}")
          hub
          s)
      (on_publish (deliver 2) 1 "news" "{}" hub)
unfolding get Presence.subscribers keys new
on_publish_lem_example = on_publish_lem 2 1 "news" "{}" hub (refl, (refl, tt)) (refl, (refl, tt))

on_to_members_lem_example :
    Ensures
      (λ _ s. Sent (λ i. contains (addressees true "room" 1 hub) i) (answer true "room" "{}") hub s)
      (on_to_members (deliver 2) 1 "room" "{}" hub)
unfolding get values Sessions.is_coordinator Sessions.roster new
on_to_members_lem_example = on_to_members_lem 2 1 "room" "{}" hub (refl, tt) (refl, tt)

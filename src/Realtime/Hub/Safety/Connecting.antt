-- ===== src/Realtime/Hub/Safety/Connecting.antt =====
-- A client that connects keeps the hub's invariant (crates/atomo_realtime/src/hub.rs).
use atomo.Prelude.{
  ℕ, suc, String, true, false, ◌||◌, Option, none, some, ◌≡◌, refl, arith, ◌==◌, contains, is_some,
  nat_eq_iff, nat_key, string_key,
}
use atomo.Prelude.Map.{get, insert, get-insert, length-insert-le}
use atomo.Realtime.Protocol.{ClientId, Principal}
use atomo.Realtime.Runtime.{Runtime}
use atomo.Realtime.Hub.State.{ClientState, Worker, on_connect}
use atomo.Realtime.Hub.Invariant.{Frame, Inv, stats-Inv}

-- A client without memberships enters under an id that no client has had before.
enter-Inv :
    {R : Runtime} (F : Frame) (id : ClientId) (cs : ClientState R) (w : Worker R)
    → ((c : String) → contains cs.subscriptions c ≡ false)
    → ((k : String) → contains cs.sessions k ≡ false)
    → F.used id ≡ false
    → Inv F w
    → Inv
        (record F { bound = suc F.bound; used = λ i. F.used i || id == i })
        (record w { clients = insert id cs w.clients })
enter-Inv {R} F id cs w subs sess fresh v = record {
  bounded = omega (arith, v.bounded, length-insert-le id cs w.clients);
  known = λ i h. ground (arith, v.known i, nat_eq_iff id i, get-insert id i cs w.clients);
  channels = λ c i h.
      ground (
        arith,
        v.channels c i h,
        v.known id,
        nat_eq_iff id i,
        get-insert id i cs w.clients,
        unknown,
      );
  sessions = λ k i h.
      ground (
        arith,
        v.sessions k i h,
        v.known id,
        nat_eq_iff id i,
        get-insert id i cs w.clients,
        unknown,
      );
  within = v.within;
  valid = v.valid;
}
  where
    none_yet : (o : Option (ClientState R)) → (is_some o ≡ true → F.used id ≡ true) → o ≡ none
    none_yet none h = refl
    none_yet (some old) h = ground (arith, h refl)

    unknown : get id w.clients ≡ none
    unknown = none_yet (get id w.clients) (v.known id)

-- A new client has an id that no client has had before.
pub on_connect-Inv :
    {R : Runtime} (F : Frame) (now : ℕ) (id : ClientId) (principal : Principal) (out : R.Sender)
    (w : Worker R)
    → F.used id ≡ false
    → Inv F w
    → Inv
        (record F { bound = suc F.bound; used = λ i. F.used i || id == i })
        (on_connect now id principal out w)
unfolding on_connect
on_connect-Inv F now id principal out w fresh v =
    stats-Inv _ _ _ (enter-Inv F id _ w (λ c. refl) (λ k. refl) fresh v)

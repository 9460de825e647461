-- ===== src/Realtime/Hub/Reaping.antt =====
-- A delivery always ends, and keeps the hub's invariant, with as much fuel as there are clients
-- (crates/atomo_realtime/src/hub.rs).
use atomo.Prelude.{
  ℕ, zero, suc, String, ◌&&◌, ◌||◌, Option, none, some, List, [], ◌∷◌, ◌≡◌, refl, arith, ◌==◌,
  contains, nat_key, string_key, eq_iff,
}
use atomo.Prelude.Map.{get, insert, remove, length-remove-lt}
use atomo.Prelude.Exec.{out_of_fuel, Ensures-mono, Ensures-continue, Ensures-for_each, for_each}
use atomo.Realtime.Protocol.{ClientId, ServerMsg}
use atomo.Realtime.Runtime.{Runtime}
use atomo.Realtime.Hub.State.{
  Delivery, sent, dropped, gone, try_deliver, ClientState, Worker, Deliver, Action,
  refresh_channel_gauge,
}
use atomo.Realtime.Hub.Delivery.{
  leave_presence, leave_session, reap, disconnect_found, on_disconnect, account, deliver_found,
  deliver,
}
use atomo.Realtime.Hub.Invariant.{Frame, Inv, stats-Inv, insert-Inv, remove-Inv, Inv-mono}
use atomo.Realtime.Hub.Farewells.{Keeps, IsSafe, leave_presence-Keeps}
use atomo.Realtime.Hub.Leaving.{leave_session-Keeps}

module _ {R : Runtime} {n : ℕ} {deliver : Deliver R} (safe : IsSafe n deliver) (F : Frame)
    (bound : F.bound ≡ n) (id : ClientId) where
  -- The channels `cs` and the sessions `ss` of the client are still to be left.
  abbrev pending : List String → List String → Frame
  pending cs ss = record F {
    leaving_channel = λ c i. F.leaving_channel c i || (id == i && contains cs c);
    leaving_session = λ k i. F.leaving_session k i || (id == i && contains ss k);
  }

  leave_channels-Keeps :
      (who : Option String) (cs ss : List String) (w : Worker R)
      → Inv (pending cs ss) w
      → Keeps (pending [] ss) (for_each cs (λ c. leave_presence deliver who c id) w)
  leave_channels-Keeps who cs ss w v =
      Ensures-for_each (λ left s. Inv (pending left ss) s) (λ c. leave_presence deliver who c id)
        (λ c rest s h.
          leave_presence-Keeps safe (pending (c ∷ rest) ss) (pending rest ss).leaving_channel who c
            id s bound (λ k i other l. ground (arith, eq_iff c k)) h)
        cs w v

  leave_sessions-Keeps :
      (ss : List String) (w : Worker R)
      → Inv (pending [] ss) w
      → Keeps (pending [] []) (for_each ss (λ s. leave_session deliver id s) w)
  leave_sessions-Keeps ss w v =
      Ensures-for_each (λ left s. Inv (pending [] left) s) (λ s. leave_session deliver id s)
        (λ name rest s h.
          leave_session-Keeps safe (pending [] (name ∷ rest)) bound
            (pending [] rest).leaving_session id name (λ k i other l. ground (arith, eq_iff name k))
            s h)
        ss w v

  reap-Keeps :
      (cs : ClientState R) (w : Worker R)
      → Inv (pending cs.subscriptions cs.sessions) w
      → Keeps F (reap deliver cs id w)
  unfolding reap refresh_channel_gauge
  reap-Keeps cs w v =
      Ensures-continue (λ _ s. Inv (pending [] cs.sessions) s) (λ _ s. Inv F s) _ _
        (leave_channels-Keeps (some cs.principal.id) cs.subscriptions cs.sessions w v)
        (λ _ s h.
          Ensures-continue (λ _ t. Inv (pending [] []) t) (λ _ t. Inv F t) _ _
            (leave_sessions-Keeps cs.sessions s h)
            (λ _ t k. stats-Inv F _ t (
              Inv-mono (pending [] []) F t (omega arith) (λ i u. u) (λ c i _ l. ground arith)
                (λ c i _ a l. ground arith) (λ c i a. a) k)))

-- With a delivery that is safe for `n` clients, a client of `n + 1` is reaped safely.
pub on_disconnect-Keeps :
    {R : Runtime} {n : ℕ} {deliver : Deliver R} (safe : IsSafe n deliver) (F : Frame)
    (id : ClientId) (w : Worker R)
    → F.bound ≡ suc n
    → Inv F w
    → Keeps F (on_disconnect deliver id w)
unfolding on_disconnect disconnect_found
on_disconnect-Keeps {R} {n} {deliver} safe F id w e v = found (get id w.clients) refl
  where
    lower : Frame
    lower = record F { bound = n }

    found :
        (o : Option (ClientState R))
        → get id w.clients ≡ o
        → Keeps F (disconnect_found deliver o id w)
    found none p = v
    found (some cs) p =
        Ensures-mono (λ _ s. Inv lower s) (λ _ s. Inv F s) (reap deliver cs id _)
          (λ _ s h.
            Inv-mono lower F s (omega arith) (λ i u. u) (λ c i _ l. ground arith)
              (λ c i _ a l. ground arith) (λ c i a. a) h)
          (reap-Keeps safe lower refl id cs (record w { clients = remove id w.clients })
            (remove-Inv F n w id cs p e v))

module _ {R : Runtime} where
  -- What reaps need be safe only where there is a client to reap.
  deliver_found-Keeps :
      (reaped : ClientId → Action R) (F : Frame) (o : Option (ClientState R)) (id : ClientId)
      (msg : ServerMsg) (w : Worker R)
      → get id w.clients ≡ o
      → ((cs : ClientState R) (s : Worker R)
          → get id w.clients ≡ some cs
          → Inv F s
          → Keeps F (reaped id s))
      → Inv F w
      → Keeps F (deliver_found reaped o id msg w)
  unfolding deliver_found
  deliver_found-Keeps reaped F none id msg w e safe v = v
  deliver_found-Keeps reaped F (some cs) id msg w e safe v = accounted (try_deliver R cs.out msg).0
    where
      next : ClientState R
      next = record cs { out = (try_deliver R cs.out msg).1 }

      told : Inv F (record w { clients = insert id next w.clients })
      told = insert-Inv F w id cs next e (λ c h. h) (λ c h. h) v

      accounted :
          (d : Delivery)
          → Keeps F (account reaped d id (record w { clients = insert id next w.clients }))
      accounted sent = stats-Inv F _ _ told
      accounted dropped = stats-Inv F _ _ told
      accounted gone = safe cs _ e told

  -- As many units of fuel as there are clients are enough for a delivery and the reaps it sets off.
  pub deliver-IsSafe : (n : ℕ) → IsSafe n (deliver {R = R} n)
  unfolding deliver
  deliver-IsSafe zero = record {
    at = λ F id msg w e v.
        deliver_found-Keeps (λ _ _. out_of_fuel) F (get id w.clients) id msg w refl
          (λ cs s p h. absurd (omega (arith, v.bounded, length-remove-lt id w.clients p))) v;
  }
  deliver-IsSafe (suc n) = record {
    at = λ F id msg w e v.
        deliver_found-Keeps (on_disconnect (deliver n)) F (get id w.clients) id msg w refl
          (λ cs s p h. on_disconnect-Keeps (deliver-IsSafe n) F id s e h) v;
  }

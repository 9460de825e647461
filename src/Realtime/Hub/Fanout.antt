-- ===== src/Realtime/Hub/Fanout.antt =====
-- Who gets which frame (crates/atomo_realtime/src/hub.rs), where no queue that is written to is closed.
pub mod Messages
use Prim.Native.String.{◌++◌ as str_append}
use atomo.Prelude.{
  ℕ, zero, suc, String, Bool, true, false, not, ◌&&◌, Option, none, some, List, [], ◌∷◌, ◌≡◌, ◌∙◌,
  refl, sym, ap, subst, arith, ◌==◌, contains, map, filter, if◌then◌else◌, nat_eq_iff, nat_key,
  string_key, All,
}
use atomo.Prelude.Map.{get, insert, get-insert}
use atomo.Prelude.Exec.{pure, for_each, Ensures, Ensures-mono, Ensures-continue}
use atomo.Realtime.Protocol.{ClientId, Payload, ServerMsg}
use atomo.Realtime.Runtime.{Runtime, TrySend, accepted, full, closed}
use atomo.Realtime.Presence
use atomo.Realtime.Presence.Membership.{has, contains-subscribers}
use atomo.Realtime.Sessions
use atomo.Realtime.Sessions.{SessionMember}
use atomo.Realtime.Hub.State.{
  delivery, try_deliver, ClientState, Worker, Action, published, principal_id,
}
use atomo.Realtime.Hub.Delivery.{account, deliver_found, deliver}
use atomo.Realtime.Hub.Commands.{on_publish, on_to_members}

-- No client stands twice.
abbrev pub AreDistinct : List ClientId → Type 0
AreDistinct [] = Unit {0}
AreDistinct (i ∷ is) = (contains is i ≡ false) × AreDistinct is

abbrev pub is_closed : TrySend → Bool
is_closed closed = true
is_closed _ = false

module _ {R : Runtime} where
  -- The client has had the frame: its queue answered once.
  abbrev pub reached : ServerMsg → Option (ClientState R) → Option (ClientState R)
  reached msg none = none
  reached msg (some cs) = some (record cs { out = (R.try_send cs.out msg).1 })

  -- The queue of a client that is connected is not closed.
  abbrev pub IsOpen : ServerMsg → Option (ClientState R) → Type 0
  IsOpen msg none = Unit {0}
  IsOpen msg (some cs) = is_closed (R.try_send cs.out msg).0 ≡ false

  -- The frame went to the clients that `to` holds of, once each, and to nobody else; channels and
  -- sessions are as they were.
  abbrev pub Sent : (ClientId → Bool) → ServerMsg → Worker R → Worker R → Type 0
  Sent to msg w s =
      ((i : ClientId)
        → get i s.clients ≡ (if to i then reached msg (get i w.clients) else get i w.clients))
      × (s.presence ≡ w.presence)
      × (s.sessions ≡ w.sessions)

  account-Sent :
      (reaped : ClientId → Action R) (t : ClientId) (msg : ServerMsg) (w : Worker R)
      (cs : ClientState R) (result : TrySend)
      → get t w.clients ≡ some cs
      → is_closed result ≡ false
      → Ensures
          (λ _ s. Sent (λ i. t == i) msg w s)
          (account reaped (delivery result) t (record w {
            clients = insert t (record cs { out = (R.try_send cs.out msg).1 }) w.clients;
          }))
  unfolding account delivery
  account-Sent reaped t msg w cs accepted e h = (
    λ i. ground (
      arith,
      nat_eq_iff t i,
      get-insert t i (record cs { out = (R.try_send cs.out msg).1 }) w.clients,
    ),
    refl,
    refl,
  )
  account-Sent reaped t msg w cs full e h = (
    λ i. ground (
      arith,
      nat_eq_iff t i,
      get-insert t i (record cs { out = (R.try_send cs.out msg).1 }) w.clients,
    ),
    refl,
    refl,
  )
  account-Sent reaped t msg w cs closed e h = ground arith

  deliver_found-Sent :
      (reaped : ClientId → Action R) (o : Option (ClientState R)) (t : ClientId) (msg : ServerMsg)
      (w : Worker R)
      → get t w.clients ≡ o
      → IsOpen msg o
      → Ensures (λ _ s. Sent (λ i. t == i) msg w s) (deliver_found reaped o t msg w)
  unfolding deliver_found try_deliver
  deliver_found-Sent reaped none t msg w e h = (λ i. ground (arith, nat_eq_iff t i), refl, refl)
  deliver_found-Sent reaped (some cs) t msg w e h =
      account-Sent reaped t msg w cs (R.try_send cs.out msg).0 e h

  pub deliver-Sent :
      (n : ℕ) (t : ClientId) (msg : ServerMsg) (w : Worker R)
      → IsOpen msg (get t w.clients)
      → Ensures (λ _ s. Sent (λ i. t == i) msg w s) (deliver n t msg w)
  unfolding deliver
  deliver-Sent zero t msg w h = deliver_found-Sent _ (get t w.clients) t msg w refl h
  deliver-Sent (suc n) t msg w h = deliver_found-Sent _ (get t w.clients) t msg w refl h

  unfoldable pub unless : (ClientId → Bool) → ℕ → ServerMsg → ClientId → Action R
  unless skip n msg t = if skip t then pure tt else deliver n t msg

  unless-Sent :
      (skip : ClientId → Bool) (n : ℕ) (msg : ServerMsg) (t : ClientId) (w : Worker R)
      → IsOpen msg (get t w.clients)
      → Ensures (λ _ s. Sent (λ i. t == i && not (skip t)) msg w s) (unless skip n msg t w)
  unfolding unless
  unless-Sent skip n msg t w h = by_skip (skip t)
    where
      by_skip :
          (b : Bool)
          → Ensures
              (λ _ s. Sent (λ i. t == i && not b) msg w s)
              ((if b then pure tt else deliver n t msg) w)
      by_skip true = (λ i. ground arith, refl, refl)
      by_skip false =
          Ensures-mono (λ _ s. Sent (λ i. t == i) msg w s)
            (λ _ s. Sent (λ i. t == i && not false) msg w s) (deliver n t msg w)
            (λ _ s q. (λ i. q.0 i ∙ ground arith, q.1, q.2)) (deliver-Sent n t msg w h)

  still-IsOpen :
      (to : ClientId → Bool) (msg : ServerMsg) (w s : Worker R) (ts : List ClientId)
      → ((i : ClientId) → contains ts i ≡ true → to i ≡ false)
      → Sent to msg w s
      → All (λ i. IsOpen msg (get i w.clients)) ts
      → All (λ i. IsOpen msg (get i s.clients)) ts
  still-IsOpen to msg w s [] apart q h = tt
  still-IsOpen to msg w s (t ∷ ts) apart q h = (
    subst (IsOpen msg) (sym (q.0 t ∙ unchanged (to t) (apart t (ground (arith, nat_eq_iff t t)))))
        h.0,
    still-IsOpen to msg w s ts (λ i c. apart i (ground arith)) q h.1,
  )
    where
      unchanged :
          (b : Bool)
          → b ≡ false
          → (if b then reached msg (get t w.clients) else get t w.clients) ≡ get t w.clients
      unchanged b e = ground arith

  pub fan-Sent :
      (skip : ClientId → Bool) (n : ℕ) (msg : ServerMsg) (ts : List ClientId) (w : Worker R)
      → AreDistinct ts
      → All (λ i. IsOpen msg (get i w.clients)) ts
      → Ensures
          (λ _ s. Sent (λ i. contains ts i && not (skip i)) msg w s)
          (for_each ts (unless skip n msg) w)
  unfolding for_each
  fan-Sent skip n msg [] w d h = (λ i. refl, refl, refl)
  fan-Sent skip n msg (t ∷ ts) w d h =
      Ensures-continue (λ _ s. Sent (λ i. t == i && not (skip t)) msg w s)
        (λ _ s. Sent (λ i. contains (t ∷ ts) i && not (skip i)) msg w s) (unless skip n msg t w) _
        (unless-Sent skip n msg t w h.0)
        (λ _ s q.
          Ensures-mono (λ _ s'. Sent (λ i. contains ts i && not (skip i)) msg s s')
            (λ _ s'. Sent (λ i. contains (t ∷ ts) i && not (skip i)) msg w s')
            (for_each ts (unless skip n msg) s)
            (λ _ s' r. (λ i. r.0 i ∙ chained i s q, r.1 ∙ q.1, r.2 ∙ q.2))
            (fan-Sent skip n msg ts s d.1 (
              still-IsOpen (λ i. t == i && not (skip t)) msg w s ts
                (λ i c. ground (arith, nat_eq_iff t i)) q h.1)))
    where
      chained :
          (i : ClientId) (s : Worker R)
          → Sent (λ i. t == i && not (skip t)) msg w s
          → (if contains ts i && not (skip i)
              then reached msg (get i s.clients)
              else get i s.clients)
            ≡ (if contains (t ∷ ts) i && not (skip i)
                then reached msg (get i w.clients)
                else get i w.clients)
      chained i s q = ground (arith, nat_eq_iff t i, q.0 i, d.0)

  pub Sent-same :
      (to to' : ClientId → Bool) (msg : ServerMsg) (w s : Worker R)
      → ((i : ClientId) → to i ≡ to' i)
      → Sent to msg w s
      → Sent to' msg w s
  Sent-same to to' msg w s same q = (
    λ i. q.0 i ∙ ap (λ b. if b then reached msg (get i w.clients) else get i w.clients) (same i),
    q.1,
    q.2,
  )

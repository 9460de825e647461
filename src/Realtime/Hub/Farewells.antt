-- ===== src/Realtime/Hub/Farewells.antt =====
-- Leaving channels and sessions keeps the hub's invariant and takes memberships down
-- (crates/atomo_realtime/src/hub.rs), over a delivery that keeps it.
use atomo.Prelude.{
  ℕ, String, Bool, true, false, ◌&&◌, Option, none, some, List, ◌≡◌, arith, ◌==◌, if◌then◌else◌,
  nat_key, string_key,
}
use atomo.Prelude.Exec.{Run, continue, pure, for_each, Ensures, Ensures-continue, Ensures-for_each}
use atomo.Realtime.Protocol.{ClientId, ServerMsg}
use atomo.Realtime.Runtime.{Runtime}
use atomo.Realtime.Presence
use atomo.Realtime.Presence.Membership.{has-leave}
use atomo.Realtime.Hub.State.{Worker, Deliver, Action}
use atomo.Realtime.Hub.Delivery.{broadcast_except, say_left, leave_presence}
use atomo.Realtime.Hub.Invariant.{Frame, Inv}

module _ {R : Runtime} where
  abbrev pub Keeps : Frame → Run (Unit {0} × Worker R) → Type 0
  Keeps F r = Ensures (λ _ w. Inv F w) r

  -- A delivery that ends and keeps the invariant, whenever at most `n` clients are connected.
  pub record IsSafe (n : ℕ) (deliver : Deliver R) : Type 0 where
    pub at :
        (F : Frame) (id : ClientId) (msg : ServerMsg) (w : Worker R)
        → F.bound ≡ n
        → Inv F w
        → Keeps F (deliver id msg w)

  -- One action after another.
  pub continue-Keeps :
      (F : Frame) (r : Run (Unit {0} × Worker R)) (f : Unit {0} → Action R)
      → Keeps F r
      → ((s : Worker R) → Inv F s → Keeps F (f tt s))
      → Keeps F (continue r f)
  continue-Keeps F r f h k =
      Ensures-continue (λ _ s. Inv F s) (λ _ s. Inv F s) r f h (λ _ s i. k s i)

module _ {R : Runtime} {n : ℕ} {deliver : Deliver R} (safe : IsSafe n deliver) where
  -- A loop of actions that keep the invariant keeps it.
  pub for_each-Keeps :
      {A : Type 0} (F : Frame) (f : A → Action R) (xs : List A) (w : Worker R)
      → ((x : A) (v : Worker R) → Inv F v → Keeps F (f x v))
      → Inv F w
      → Keeps F (for_each xs f w)
  for_each-Keeps F f xs w keep v =
      Ensures-for_each (λ _ s. Inv F s) f (λ x _ s h. keep x s h) xs w v

  pub unless-Keeps :
      (F : Frame) (b : Bool) (id : ClientId) (msg : ServerMsg) (w : Worker R)
      → F.bound ≡ n
      → Inv F w
      → Keeps F ((if b then pure tt else deliver id msg) w)
  unless-Keeps F true id msg w e v = v
  unless-Keeps F false id msg w e v = safe.at F id msg w e v

  pub broadcast_except-Keeps :
      (F : Frame) (channel : String) (except : ClientId) (msg : ServerMsg) (w : Worker R)
      → F.bound ≡ n
      → Inv F w
      → Keeps F (broadcast_except deliver channel except msg w)
  unfolding broadcast_except
  broadcast_except-Keeps F channel except msg w e v =
      for_each-Keeps F _ (Presence.subscribers channel w.presence) w
        (λ target s h. unless-Keeps F (target == except) target msg s e h) v

  say_left-Keeps :
      (F : Frame) (who : Option String) (channel : String) (id : ClientId) (w : Worker R)
      → F.bound ≡ n
      → Inv F w
      → Keeps F (say_left deliver who channel id w)
  unfolding say_left
  say_left-Keeps F none channel id w e v = v
  say_left-Keeps F (some who) channel id w e v = broadcast_except-Keeps F channel id _ w e v

  -- The client leaves the channel: that membership is pending no more.
  pub leave_presence-Keeps :
      (F : Frame) (rest : String → ClientId → Bool) (who : Option String) (channel : String)
      (id : ClientId) (w : Worker R)
      → F.bound ≡ n
      → ((c : String) (i : ClientId)
          → (channel == c && id == i) ≡ false
          → F.leaving_channel c i ≡ true
          → rest c i ≡ true)
      → Inv F w
      → Keeps (record F { leaving_channel = rest }) (leave_presence deliver who channel id w)
  unfolding leave_presence
  leave_presence-Keeps F rest who channel id w e others v =
      told (Presence.leave channel id w.presence).0
    where
      G : Frame
      G = record F { leaving_channel = rest }

      w' : Worker R
      w' = record w { presence = (Presence.leave channel id w.presence).1 }

      left : Inv G w'
      left = record {
        bounded = v.bounded;
        known = v.known;
        channels = λ c i h.
            ground (arith, v.channels c i, others c i, has-leave channel id w.presence c i);
        sessions = v.sessions;
        within = v.within;
        valid = v.valid;
      }

      told :
          (removed : Bool)
          → Keeps G ((if removed then say_left deliver who channel id else pure tt) w')
      told true = say_left-Keeps G who channel id w' e left
      told false = left

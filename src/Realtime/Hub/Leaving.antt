-- ===== src/Realtime/Hub/Leaving.antt =====
-- Leaving a coordinator session keeps the hub's invariant and takes the membership down
-- (crates/atomo_realtime/src/hub.rs), over a delivery that keeps it.
use atomo.Prelude.{
  ℕ, String, Bool, true, false, ◌&&◌, ◌||◌, List, ◌≡◌, refl, arith, ◌==◌, nat_eq_iff, nat_key,
  string_key, eq_iff,
}
use atomo.Prelude.Exec.{for_each, Ensures-mono, Ensures-continue}
use atomo.Realtime.Protocol.{ClientId, ServerMsg}
use atomo.Realtime.Runtime.{Runtime}
use atomo.Realtime.Sessions
use atomo.Realtime.Sessions.{SessionMember, Leaving, CoordinatorChange, LeaveOutcome, Sessions}
use atomo.Realtime.Sessions.Validity.{AllValid}
use atomo.Realtime.Sessions.NoPanic.{Ends, leave-Ends}
use atomo.Realtime.Sessions.Roles.{in_session, Shows, leave-Shows}
use atomo.Realtime.Hub.State.{Worker, Deliver, refresh_session_gauge}
use atomo.Realtime.Hub.Delivery.{evict, announce, notify_rest, after_leave, leave_session}
use atomo.Realtime.Hub.Invariant.{Frame, Inv, stats-Inv, unattend-Inv, Inv-mono}
use atomo.Realtime.Hub.Farewells.{Keeps, IsSafe, for_each-Keeps}
use atomo.Realtime.Sessions.Election.{ClosedIsRemoved, leave-ClosedIsRemoved}

module _ {R : Runtime} {n : ℕ} {deliver : Deliver R} (safe : IsSafe n deliver) (F : Frame)
    (bound : F.bound ≡ n) (rest : String → ClientId → Bool) (id : ClientId) (session : String)
    (others : (k : String) (i : ClientId)
      → (session == k && id == i) ≡ false
      → F.leaving_session k i ≡ true
      → rest k i ≡ true) where
  -- The membership is pending no more.
  abbrev pub left_frame : Frame
  left_frame = record F { leaving_session = rest }

  -- While the rest is told, nobody joins.
  abbrev told_frame : Sessions → Frame
  told_frame ss = record F {
    leaving_session = rest;
    allowed = λ k i. F.allowed k i && in_session k i ss;
  }

  -- While a closed session is emptied, all its members are leaving.
  abbrev emptied_frame : Sessions → Frame
  emptied_frame ss = record (told_frame ss) { leaving_session = λ k i. rest k i || session == k }

  -- The sessions after the leave, with the client map as before.
  left-Inv :
      (outcome : LeaveOutcome) (ss : Sessions) (w : Worker R)
      → Shows session id w.sessions (Leaving.leaves outcome ss)
      → AllValid ss
      → Inv F w
      → Inv (told_frame ss) (record w { sessions = ss })
  left-Inv outcome ss w shows valid v = record {
    bounded = v.bounded;
    known = v.known;
    channels = v.channels;
    sessions = λ k i h. ground (arith, shows k i, others k i, v.sessions k i);
    within = λ k i h. ground (arith, shows k i, v.within k i);
    valid = valid;
  }

  announce-Keeps :
      (G : Frame) (farewell : ServerMsg) (coord m : SessionMember) (w : Worker R)
      → G.bound ≡ n
      → Inv G w
      → Keeps G (announce deliver session farewell coord m w)
  unfolding announce
  announce-Keeps G farewell coord m w e v =
      Ensures-continue (λ _ s. Inv G s) (λ _ s. Inv G s) (deliver m.client_id farewell w) _
        (safe.at G m.client_id farewell w e v) (λ _ s h. safe.at G m.client_id _ s e h)

  evict-Keeps :
      (ss : Sessions) (m : SessionMember) (w : Worker R)
      → Inv (emptied_frame ss) w
      → Keeps (emptied_frame ss) (evict deliver session m w)
  unfolding evict
  evict-Keeps ss m w v = safe.at (emptied_frame ss) m.client_id _ _ bound (
      unattend-Inv (emptied_frame ss) w m.client_id session
        (λ _. ground (arith, eq_iff session session)) v)

  notify_rest-Keeps :
      (farewell : ServerMsg) (change : CoordinatorChange) (remaining : List SessionMember)
      (ss : Sessions) (w : Worker R)
      → (change ≡ CoordinatorChange.closed → (i : ClientId) → in_session session i ss ≡ false)
      → Inv (told_frame ss) w
      → Keeps (told_frame ss) (notify_rest deliver session farewell change remaining w)
  unfolding notify_rest
  notify_rest-Keeps farewell CoordinatorChange.unchanged remaining ss w gone v =
      for_each-Keeps safe (told_frame ss) _ remaining w
        (λ m s h. safe.at (told_frame ss) m.client_id farewell s bound h) v
  notify_rest-Keeps farewell (CoordinatorChange.reelected coord) remaining ss w gone v =
      for_each-Keeps safe (told_frame ss) _ remaining w
        (λ m s h. announce-Keeps (told_frame ss) farewell coord m s bound h) v
  notify_rest-Keeps farewell CoordinatorChange.closed remaining ss w gone v =
      Ensures-mono (λ _ s. Inv (emptied_frame ss) s) (λ _ s. Inv (told_frame ss) s)
        (for_each remaining (evict deliver session) w)
        (λ _ s h.
          Inv-mono (emptied_frame ss) (told_frame ss) s (omega arith) (λ i u. u)
            (λ c i _ l. ground arith) (λ k i _ a l. ground (arith, gone refl i, eq_iff session k))
            (λ k i a. a) h)
        (for_each-Keeps safe (emptied_frame ss) _ remaining w (λ m s h. evict-Keeps ss m s h)
          (Inv-mono (told_frame ss) (emptied_frame ss) w (omega arith) (λ i u. u)
            (λ c i _ l. ground arith) (λ k i _ a l. ground arith) (λ k i a. a) v))

  after_leave-Keeps :
      (leaving : Leaving) (w : Worker R)
      → Ends leaving
      → Shows session id w.sessions leaving
      → ClosedIsRemoved leaving
      → Inv F w
      → Keeps left_frame (after_leave deliver leaving id session w)
  unfolding after_leave
  after_leave-Keeps Leaving.not_member w ends shows closes v =
      Inv-mono F left_frame w (omega arith) (λ i u. u) (λ c i _ l. ground arith)
        (λ k i h _ l. ground (arith, others k i, eq_iff session k, nat_eq_iff id i)) (λ k i a. a) v
  after_leave-Keeps Leaving.panics w ends shows closes v = absurd ends
  after_leave-Keeps (Leaving.leaves outcome ss) w ends shows closes v =
      Ensures-continue (λ _ s. Inv (told_frame ss) s) (λ _ s. Inv left_frame s)
        (notify_rest deliver session _ outcome.change outcome.remaining _) _
        (notify_rest-Keeps _ outcome.change outcome.remaining ss _
          (λ e i. ground (arith, closes e, shows session i, eq_iff session session))
          (unattend-Inv (told_frame ss) (record w { sessions = ss }) id session
            (λ h.
              absurd
                (ground (arith, h, shows session id, eq_iff session session, nat_eq_iff id id)))
            (left-Inv outcome ss w shows ends v)))
        (λ _ s h.
          unfold refresh_session_gauge in
          stats-Inv left_frame _ s (
            Inv-mono (told_frame ss) left_frame s (omega arith) (λ i u. u) (λ c i _ l. ground arith)
              (λ k i _ a l. ground arith) (λ k i a. ground arith) h))

  -- The client leaves the session: that membership is pending no more.
  pub leave_session-Keeps :
      (w : Worker R) → Inv F w → Keeps left_frame (leave_session deliver id session w)
  unfolding leave_session
  leave_session-Keeps w v =
      after_leave-Keeps (Sessions.leave session id w.session_policy w.sessions) w
        (leave-Ends session id w.session_policy v.valid)
        (leave-Shows session id w.session_policy w.sessions)
        (leave-ClosedIsRemoved session id w.session_policy w.sessions) v

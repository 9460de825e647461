-- ===== src/Realtime/Hub/History.antt =====
-- Whatever commands the hub takes up, and however its clients' queues behave, its loop goes on and
-- its state stays sound (crates/atomo_realtime/src/hub.rs).
use atomo.Prelude.{
  ℕ, suc, String, Bool, true, false, ◌||◌, List, [], ◌∷◌, ◌≡◌, refl, arith, ◌==◌, length, nat_key,
}
use atomo.Prelude.Map.{get}
use atomo.Prelude.Exec.{Run, Ensures, Ensures-mono, Ensures-for_each, for_each}
use atomo.Realtime.Protocol.{ClientId}
use atomo.Realtime.Runtime.{Runtime}
use atomo.Realtime.Presence.Membership.{has, has-new}
use atomo.Realtime.Sessions.Validity.{AllValid, AllValid-new}
use atomo.Realtime.Sessions.Roles.{in_session, member-new}
use atomo.Realtime.Hub.State.{Worker, Command, HubConfig, new}
use atomo.Realtime.Hub.Commands.{handle, step, run}
use atomo.Realtime.Hub.Invariant.{Frame, Inv, subscribes, attends, Inv-mono}
use atomo.Realtime.Hub.Farewells.{Keeps}
use atomo.Realtime.Hub.Leaving.{leave_session-Keeps}
use atomo.Realtime.Hub.Reaping.{deliver-IsSafe, on_disconnect-Keeps}
use atomo.Realtime.Hub.Safety.{
  on_subscribe-Keeps, on_unsubscribe-Keeps, on_publish-Keeps, on_presence-Keeps,
}
use atomo.Realtime.Hub.Safety.Attending.{
  on_session_join-Keeps, on_to_coordinator-Keeps, on_to_members-Keeps,
}
use atomo.Realtime.Hub.Safety.Connecting.{on_connect-Inv}

-- Between commands nothing is pending.
abbrev pub settled : ℕ → (ClientId → Bool) → Frame
settled n used = record {
  bound = n;
  used = used;
  leaving_channel = λ c i. false;
  leaving_session = λ k i. false;
  allowed = λ k i. true;
}

module _ {R : Runtime} where
  -- Whoever is listed in a channel or in a session is a connected client that has it on its own list,
  -- and the sessions are well-formed.
  pub record IsSound (w : Worker R) : Type 0 where
    pub channels : (c : String) (i : ClientId) → has c i w.presence ≡ true → subscribes c i w ≡ true
    pub sessions :
        (k : String) (i : ClientId) → in_session k i w.sessions ≡ true → attends k i w ≡ true
    pub valid : AllValid w.sessions

  abbrev pub Settled : (ClientId → Bool) → Worker R → Type 0
  Settled used w = Inv (settled (length w.clients) used) w

  Settled-IsSound : (used : ClientId → Bool) (w : Worker R) → Settled used w → IsSound w
  Settled-IsSound used w v = record {
    channels = v.channels;
    sessions = v.sessions;
    valid = v.valid;
  }

  tighten :
      (n : ℕ) (used : ClientId → Bool) (w : Worker R) → Inv (settled n used) w → Settled used w
  tighten n used w v = record {
    bounded = omega arith;
    known = v.known;
    channels = v.channels;
    sessions = v.sessions;
    within = v.within;
    valid = v.valid;
  }

  abbrev used_after : Command R → (ClientId → Bool) → ClientId → Bool
  used_after (Command.connect id principal out) used = λ i. used i || id == i
  used_after _ used = used

  abbrev IsFresh : Command R → (ClientId → Bool) → Type 0
  IsFresh (Command.connect id principal out) used = used id ≡ false
  IsFresh _ used = Unit {0}

  -- No two connections have the same id.
  abbrev pub Issued : (ClientId → Bool) → List (ℕ × Command R) → Type 0
  Issued used [] = Unit {0}
  Issued used ((now, command) ∷ rest) = IsFresh command used × Issued (used_after command used) rest

  tightened :
      (n : ℕ) (used : ClientId → Bool) (r : Run (Unit {0} × Worker R))
      → Keeps (settled n used) r
      → Ensures (λ _ s. Settled used s) r
  tightened n used r h =
      Ensures-mono (λ _ s. Inv (settled n used) s) (λ _ s. Settled used s) r
        (λ _ s v. tighten n used s v) h

  -- One command: the step ends without a panic, in a settled state.
  step-Settled :
      (now : ℕ) (command : Command R) (used : ClientId → Bool) (w : Worker R)
      → IsFresh command used
      → Settled used w
      → Ensures (λ _ s. Settled (used_after command used) s) (step (now, command) w)
  unfolding step handle
  step-Settled now (Command.connect id principal out) used w fresh v =
      tighten (suc (length w.clients)) _ _
        (on_connect-Inv (settled (length w.clients) used) now id principal out w fresh v)
  step-Settled now (Command.subscribe id channel) used w fresh v = tightened _ used _ (
      on_subscribe-Keeps (deliver-IsSafe (length w.clients)) (settled (length w.clients) used) refl
        now id channel w v)
  step-Settled now (Command.unsubscribe id channel) used w fresh v = tightened _ used _ (
      on_unsubscribe-Keeps (deliver-IsSafe (length w.clients)) (settled (length w.clients) used)
        refl id channel w v)
  step-Settled now (Command.publish id channel payload) used w fresh v = tightened _ used _ (
      on_publish-Keeps (deliver-IsSafe (length w.clients)) (settled (length w.clients) used) refl id
        channel payload w v)
  step-Settled now (Command.presence id channel) used w fresh v = tightened _ used _ (
      on_presence-Keeps (deliver-IsSafe (length w.clients)) (settled (length w.clients) used) refl
        id channel w v)
  step-Settled now (Command.session_join id session) used w fresh v = tightened _ used _ (
      on_session_join-Keeps (deliver-IsSafe (length w.clients)) (settled (length w.clients) used)
        refl now id session w (λ k i. refl) v)
  step-Settled now (Command.session_leave id session) used w fresh v =
      tightened (length w.clients) used _ (
        leave_session-Keeps (deliver-IsSafe (length w.clients)) (settled (length w.clients) used)
          refl (λ k i. false) id session (λ k i _ l. l) w v)
  step-Settled now (Command.to_coordinator id session payload) used w fresh v = tightened _ used _ (
      on_to_coordinator-Keeps (deliver-IsSafe (length w.clients)) (settled (length w.clients) used)
        refl id session payload w v)
  step-Settled now (Command.to_members id session payload) used w fresh v = tightened _ used _ (
      on_to_members-Keeps (deliver-IsSafe (length w.clients)) (settled (length w.clients) used) refl
        id session payload w v)
  step-Settled now (Command.disconnect id) used w fresh v = tightened _ used _ (
      on_disconnect-Keeps (deliver-IsSafe (length w.clients))
        (settled (suc (length w.clients)) used) id w refl
        (Inv-mono (settled (length w.clients) used) (settled (suc (length w.clients)) used) w
          (omega arith) (λ i u. u) (λ c i _ l. ground arith) (λ c i _ a l. ground arith)
          (λ c i a. a) v))

  Settled-new : (config : HubConfig R) → Settled (λ i. false) (new config)
  unfolding new get
  Settled-new config = record {
    bounded = omega arith;
    known = λ i h. ground arith;
    channels = λ c i h. ground (arith, has-new c i);
    sessions = λ k i h. ground (arith, member-new k i);
    within = λ k i h. refl;
    valid = AllValid-new;
  }

  -- What holds while `rest` is still to be taken up.
  abbrev Pending : List (ℕ × Command R) → Worker R → Type 0
  Pending rest w = (used : ClientId → Bool) × Issued used rest × Settled used w

  -- From a fresh hub every history of commands, over connections with different ids, is worked off:
  -- no handler panics, the reaps that a delivery sets off come to an end, and afterwards whoever is
  -- listed in a channel or in a session is a connected client with that channel or session on its own
  -- list, and each session has a coordinator among its members.
  pub run-IsSound :
      (config : HubConfig R) (commands : List (ℕ × Command R))
      → Issued (λ i. false) commands
      → Ensures (λ _ w. IsSound w) (run commands (new config))
  unfolding run
  run-IsSound config commands issued =
      Ensures-mono (λ _ w. Pending [] w) (λ _ w. IsSound w) (for_each commands step (new config))
        (λ _ w (used, _, v). Settled-IsSound used w v)
        (Ensures-for_each Pending step
          (λ (now, command) rest w (used, (fresh, later), v).
            Ensures-mono (λ _ s. Settled (used_after command used) s) (λ _ s. Pending rest s)
              (step (now, command) w) (λ _ s k. (used_after command used, later, k))
              (step-Settled now command used w fresh v))
          commands (new config) (λ i. false, issued, Settled-new config))

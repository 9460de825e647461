-- ===== src/Realtime/Sessions/Validity.antt =====
-- Well-formed coordinator sessions, and that `join` keeps them
-- (crates/atomo_realtime/src/sessions.rs).
use atomo.Prelude.{
  String, true, Option, none, some, [], ◌∷◌, ◌≡◌, ◌⊎◌, refl, subst, arith, inl, inr, contains,
  contains-append, is_some, nat_eq_iff, nat_key, string_key,
}
use atomo.Prelude.Map.{get, insert, remove, get-insert, get-insert_cases, get_of_remove}
use atomo.Realtime.Protocol.{ClientId}
use atomo.Realtime.Sessions.{
  SessionMember, Session, Sessions, new, or_created, admit, join_session, join,
}

-- The join order lists exactly the members, each entry stands under its own client.
pub record IsOrdered (s : Session) : Type 0 where
  pub listed : (i : ClientId) → contains s.order i ≡ is_some (get i s.members)
  pub keyed : (i : ClientId) (m : SessionMember) → get i s.members ≡ some m → m.client_id ≡ i

-- And the coordinator is one of the members.
pub record IsValid (s : Session) : Type 0 where
  pub ordered : IsOrdered s
  pub open ordered use *
  pub led : is_some (get s.coordinator s.members) ≡ true

pub record AllValid (ss : Sessions) : Type 0 where
  pub at : (name : String) (s : Session) → get name ss.sessions ≡ some s → IsValid s

pub AllValid-new : AllValid new
unfolding new get
AllValid-new = record { at = λ name s e. cc }

pub insert-AllValid :
    (name : String) (s : Session) (ss : Sessions)
    → IsValid s
    → AllValid ss
    → AllValid (record { sessions = insert name s ss.sessions })
insert-AllValid name s ss v vs = record {
  at = λ n t e. elim (get-insert_cases name n s ss.sessions e) [
    | inl same ↦ subst IsValid same v
    | inr old ↦ vs.at n t old
  ];
}

pub remove-AllValid :
    (name : String) (ss : Sessions)
    → AllValid ss
    → AllValid (record { sessions = remove name ss.sessions })
remove-AllValid name ss vs = record { at = λ n t e. vs.at n t (get_of_remove name n ss.sessions e) }

or_created-IsOrdered :
    (o : Option Session) (client : ClientId)
    → ((s : Session) → o ≡ some s → IsValid s)
    → IsOrdered (or_created o client)
unfolding or_created get
or_created-IsOrdered none client v = record { listed = λ i. refl; keyed = λ i m e. cc }
or_created-IsOrdered (some s) client v = (v s refl).ordered

-- The coordinator is a member, or is the client that is about to become one.
or_created_led :
    (o : Option Session) (client : ClientId)
    → ((s : Session) → o ≡ some s → IsValid s)
    → let s = or_created o client in
      (is_some (get s.coordinator s.members) ≡ true) ⊎ (s.coordinator ≡ client)
unfolding or_created
or_created_led none client v = inr refl
or_created_led (some s) client v = inl (v s refl).led

admit-IsValid :
    (s : Session) (client : ClientId) (who : String)
    → IsOrdered s
    → (is_some (get s.coordinator s.members) ≡ true) ⊎ (s.coordinator ≡ client)
    → IsValid (admit s client who)
unfolding admit
admit-IsValid s client who v led = record {
  ordered = record {
    listed = λ i. ground (
      arith,
      v.listed i,
      nat_eq_iff client i,
      contains-append s.order (client ∷ []) i,
      get-insert client i entry s.members,
    );
    keyed = λ i m e.
        ground (arith, v.keyed i m, nat_eq_iff client i, get-insert client i entry s.members);
  };
  led =
      ground
        (arith, nat_eq_iff client s.coordinator, get-insert client s.coordinator entry s.members);
}
  where
    entry : SessionMember
    entry = record { client_id = client; principal_id = who; slot = s.next_slot }

join_session-IsValid :
    (o : Option SessionMember) (s : Session) (client : ClientId) (who : String)
    → get client s.members ≡ o
    → IsOrdered s
    → (is_some (get s.coordinator s.members) ≡ true) ⊎ (s.coordinator ≡ client)
    → IsValid (join_session o s client who).1
unfolding join_session
join_session-IsValid none s client who e v led = admit-IsValid s client who v led
join_session-IsValid (some m) s client who e v (inl led) = record { ordered = v; led = led }
join_session-IsValid (some m) s client who e v (inr led) = record {
  ordered = v;
  led = rw led (rw e);
}

-- From well-formed sessions `join` leads to well-formed sessions.
pub join-AllValid :
    (name : String) (client : ClientId) (who : String) {ss : Sessions}
    → AllValid ss
    → AllValid (join name client who ss).1
unfolding join
join-AllValid name client who {ss} vs =
    let o : Option Session = get name ss.sessions in
    insert-AllValid name _ ss
      (join_session-IsValid _ (or_created o client) client who refl
        (or_created-IsOrdered o client (vs.at name)) (or_created_led o client (vs.at name)))
      vs

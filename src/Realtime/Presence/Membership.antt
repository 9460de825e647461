-- ===== src/Realtime/Presence/Membership.antt =====
-- Who is in which channel after `join` and `leave` (crates/atomo_realtime/src/presence.rs).
use atomo.Prelude.{
  String, Bool, true, false, not, ◌&&◌, Option, none, some, [], ◌∷◌, ◌≡◌, refl, arith, ◌==◌,
  contains, is_some, if◌then◌else◌, nat_eq_iff, nat_key, string_key, eq_iff,
}
use atomo.Prelude.Map.{get, insert, remove, get-insert, get-remove, contains-keys}
use atomo.Realtime.Protocol.{ClientId}
use atomo.Realtime.Presence.{
  Presence, Members, or_empty, is_empty, new, join, leave_from, leave, subscribers,
}

-- Client `i` is a member of channel `c`.
unfoldable pub has : String → ClientId → Presence → Bool
has c i p = is_some (get i (or_empty (get c p.channels)))

pub has-new : (c : String) (i : ClientId) → has c i new ≡ false
unfolding has new get
has-new c i = refl

module _ (ch : String) (id : ClientId) (who : String) (p : Presence) where
  -- `join` answers whether the client was no member of the channel yet.
  pub join_new : (join ch id who p).0 ≡ not (has ch id p)
  unfolding join has
  join_new = refl

  -- After `join` the client is a member of that channel, and every other membership is as it was.
  pub has-join :
      (c : String) (i : ClientId)
      → has c i (join ch id who p).1 ≡ (if ch == c && id == i then true else has c i p)
  unfolding join has
  has-join c i =
      rw get-insert
        (ground (arith, eq_iff ch c, get-insert id i who (or_empty (get ch p.channels))))

get_of_empty : (ms : Members) (i : ClientId) → is_empty ms ≡ true → is_some (get i ms) ≡ false
unfolding get
get_of_empty [] i h = refl
get_of_empty (m ∷ ms) i h = ground arith

has-leave_from :
    (o : Option Members) (ch : String) (id : ClientId) (p : Presence) (c : String) (i : ClientId)
    → get ch p.channels ≡ o
    → has c i (leave_from o ch id p).1 ≡ (if ch == c && id == i then false else has c i p)
unfolding leave_from has get
has-leave_from none ch id p c i e = ground (arith, eq_iff ch c, nat_eq_iff id i)
has-leave_from (some ms) ch id p c i e = ground (
  arith,
  eq_iff ch c,
  nat_eq_iff id i,
  get-remove id i ms,
  get_of_empty (remove id ms) i,
  get-remove ch c p.channels,
  get-insert ch c (remove id ms) p.channels,
)

module _ (ch : String) (id : ClientId) (p : Presence) where
  -- After `leave` the client is no member of that channel, and every other membership is as it
  -- was.
  pub has-leave :
      (c : String) (i : ClientId)
      → has c i (leave ch id p).1 ≡ (if ch == c && id == i then false else has c i p)
  unfolding leave
  has-leave c i = has-leave_from (get ch p.channels) ch id p c i refl

  -- `leave` answers whether the client was a member.
  pub leave_removed : (leave ch id p).0 ≡ has ch id p
  unfolding leave leave_from has get
  leave_removed = ground arith

  -- The fan-out list of a channel holds exactly its members.
  pub contains-subscribers : contains (subscribers ch p) id ≡ has ch id p
  unfolding subscribers has
  contains-subscribers = contains-keys id (or_empty (get ch p.channels))

-- Every channel that is kept has a member.
pub record IsPruned (p : Presence) : Type 0 where
  pub occupied : (c : String) (ms : Members) → get c p.channels ≡ some ms → is_empty ms ≡ false

insert_occupied : (i : ClientId) (w : String) (ms : Members) → is_empty (insert i w ms) ≡ false
unfolding insert
insert_occupied i w [] = refl
insert_occupied i w ((j, v) ∷ ms) = ground arith

pub IsPruned-new : IsPruned new
unfolding new get
IsPruned-new = record { occupied = λ c ms e. cc }

-- The same of `join`.
pub join-IsPruned :
    (ch : String) (id : ClientId) (who : String) {p : Presence}
    → IsPruned p
    → IsPruned (join ch id who p).1
unfolding join
join-IsPruned ch id who {p} v = record {
  occupied = λ c ms e. ground (
    arith,
    v.occupied c ms,
    get-insert ch c (insert id who (or_empty (get ch p.channels))) p.channels,
    insert_occupied id who (or_empty (get ch p.channels)),
  );
}

leave_from-IsPruned :
    (o : Option Members) (ch : String) (id : ClientId) {p : Presence}
    → IsPruned p
    → IsPruned (leave_from o ch id p).1
unfolding leave_from
leave_from-IsPruned none ch id v = v
leave_from-IsPruned (some ns) ch id {p} v = record {
  occupied = λ c ms e. ground (
    arith,
    v.occupied c ms,
    get-insert ch c (remove id ns) p.channels,
    get-remove ch c p.channels,
  );
}

-- If every channel that is kept has a member, then that is so after `leave` as well.
pub leave-IsPruned :
    (ch : String) (id : ClientId) {p : Presence} → IsPruned p → IsPruned (leave ch id p).1
unfolding leave
leave-IsPruned ch id {p} v = leave_from-IsPruned (get ch p.channels) ch id v

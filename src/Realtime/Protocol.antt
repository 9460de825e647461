-- ===== src/Realtime/Protocol.antt =====
-- Wire vocabulary of the realtime tier (crates/atomo_realtime/src/protocol.rs). A payload is a
-- `RawValue`, raw JSON text that the hub never reads: a `String` here.
use atomo.Prelude.{ℕ, String, Bool, false, true, Option, none, some, List, str_eq, if◌then◌else◌}

abbrev pub ClientId : Type 0
ClientId = ℕ

abbrev pub Payload : Type 0
Payload = String

pub record Principal : Type 0 where
  pub id : String
  pub role : Option String
  pub anonymous : Bool

-- `Principal::new` and `Principal::anonymous`.
unfoldable pub authenticated_principal : String → Option String → Principal
authenticated_principal id role = record { id = id; role = role; anonymous = false }

unfoldable pub anonymous_principal : String → Principal
anonymous_principal id = record { id = id; role = none; anonymous = true }

pub data ClientMsg : Type 0 where
  subscribe unsubscribe presence session_join session_leave : String → ClientMsg
  publish to_coordinator to_members : String → Payload → ClientMsg

-- The flat shape `Wire` that a frame is first read into; a missing name is the empty text.
pub record Wire : Type 0 where
  pub op : String
  pub channel : String
  pub session : String
  pub payload : Option Payload

pub data FrameError : Type 0 where
  requires_payload unknown_op : String → FrameError

pub data Parsed {ℓ} (A : Type ℓ) : Type ℓ where
  ok : A → Parsed A
  err : FrameError → Parsed A

-- The closure `need`.
unfoldable pub need : Option Payload → String → (Payload → ClientMsg) → Parsed ClientMsg
need none op build = err (requires_payload op)
need (some p) op build = ok (build p)

-- `ClientMsg::deserialize`, after `Wire::deserialize`.
unfoldable pub from_wire : Wire → Parsed ClientMsg
unfolding need
from_wire w =
    if str_eq w.op "subscribe"
    then ok (subscribe w.channel)
    else if str_eq w.op "unsubscribe"
    then ok (unsubscribe w.channel)
    else if str_eq w.op "presence"
    then ok (presence w.channel)
    else if str_eq w.op "publish"
    then need w.payload "publish" (publish w.channel)
    else if str_eq w.op "session_join"
    then ok (session_join w.session)
    else if str_eq w.op "session_leave"
    then ok (session_leave w.session)
    else if str_eq w.op "to_coordinator"
    then need w.payload "to_coordinator" (to_coordinator w.session)
    else if str_eq w.op "to_members"
    then need w.payload "to_members" (to_members w.session)
    else err (unknown_op w.op)

pub record MemberInfo : Type 0 where
  pub slot : ℕ
  pub id : String

-- Frames from the hub to a client; the fields stand in the order of the source.
pub data ServerMsg : Type 0 where
  message : String → Option String → Payload → ServerMsg
  joined left : String → String → ServerMsg
  presence : String → List String → ServerMsg
  error : String → ServerMsg
  session_start : String → ℕ → Bool → List MemberInfo → ServerMsg
  member_joined member_left coordinator_changed : String → ℕ → String → ServerMsg
  session_closed : String → String → ServerMsg
  from_member : String → String → ℕ → Payload → ServerMsg
  from_coordinator : String → Payload → ServerMsg

-- ===== src/Realtime/Runtime.antt =====
-- What the realtime tier takes from elsewhere: floats, the order on texts, and the bounded channel
-- of tokio (`mpsc::Sender`). A sender is used through `try_send` alone; its state may hold all that
-- decides the next answers, the receiver's progress included.
use atomo.Prelude.{ℕ, String, Bool}
use atomo.Realtime.Protocol.{ServerMsg}

pub record Floats : Type 1 where
  pub Float : Type 0
  pub one : Float
  pub of_u32 : ℕ → Float
  pub add : Float → Float → Float
  pub sub : Float → Float → Float
  pub mul : Float → Float → Float
  pub fmin : Float → Float → Float
  -- `a >= b`
  pub ge : Float → Float → Bool
  -- `Duration::as_secs_f64`, of a count of nanoseconds.
  pub secs : ℕ → Float

-- The results of `try_send`: `Ok(())`, `Full` and `Closed`.
pub data TrySend : Type 0 where
  accepted full closed : TrySend

pub record Runtime : Type 1 where
  pub floats : Floats
  pub text_le : String → String → Bool
  pub Sender : Type 0
  pub try_send : Sender → ServerMsg → TrySend × Sender

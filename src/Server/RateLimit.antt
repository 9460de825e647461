-- ===== src/Server/RateLimit.antt =====
-- The request limit of the HTTP server (crates/atomo_server/src/rate_limit.rs). An `Instant` is a count
-- of nanoseconds, and `-` on ℕ is `duration_since`, which stops at zero; what is read of the clock is
-- an argument. An address is a key of any kind.
pub mod Buckets
pub mod Fairness
use atomo.Prelude.{
  Key, ℕ, ◌-◌, ◌*◌, ◌/◌, String, Bool, true, false, ◌||◌, not, Option, none, some, List, [], ◌∷◌,
  leb, ltb, unwrap_or, if◌then◌else◌, str_eq,
}
use atomo.Prelude.Map
use atomo.Prelude.Map.{Map}
use text.Mathlib.Text.{find?, starts_with}
use Prim.Native.String.{slice}

pub record TokenBucket : Type 0 where
  pub tokens : ℕ
  pub last_refill : ℕ

pub record RateLimiter (Ip : Type 0) : Type 0 where
  pub state : Map Ip TokenBucket
  pub max_requests : ℕ
  pub window_secs : ℕ
  pub trust_xff : Bool

-- `Ok(())` and `Err(retry_after)`.
pub data Verdict : Type 0 where
  allowed : Verdict
  refused : ℕ → Verdict

abbrev pub nanos : ℕ
nanos = 1_000_000_000

abbrev pub max_one : ℕ → ℕ
max_one n = if leb n 1 then 1 else n

-- `or_insert`
abbrev pub or_full : ℕ → ℕ → Option TokenBucket → TokenBucket
or_full max now none = record { tokens = max; last_refill = now }
or_full max now (some b) = b

abbrev pub elapsed : ℕ → TokenBucket → ℕ
elapsed now b = (now - b.last_refill) / nanos

abbrev pub refilled : ℕ → ℕ → ℕ → TokenBucket → TokenBucket
refilled max window now b =
    if leb window (elapsed now b) then record { tokens = max; last_refill = now } else b

-- The time that has passed is read before the refill.
abbrev pub take_token : ℕ → ℕ → TokenBucket → Verdict × TokenBucket
take_token window passed b =
    if ltb 0 b.tokens
    then (allowed, record b { tokens = b.tokens - 1 })
    else (refused (max_one (window - passed)), b)

-- What `check` does with the bucket of an address.
unfoldable pub check_bucket : ℕ → ℕ → ℕ → Option TokenBucket → Verdict × TokenBucket
check_bucket max window now o =
    let b = or_full max now o in take_token window (elapsed now b) (refilled max window now b)

-- The paths that are not limited.
unfoldable pub is_exempt : String → Bool
is_exempt path =
    starts_with path "/auth/"
    || str_eq path "/auth"
    || str_eq path "/health"
    || str_eq path "/ready"

-- `s.split(',').next()`
abbrev pub first_part : String → String
first_part s = elim (find? s ",") [ none ↦ s | some i ↦ slice s 0 i ]

module _ {Ip : Type 0} ⦃e : Key Ip⦄ where
  unfoldable pub new : ℕ → ℕ → RateLimiter Ip
  new max_requests window_secs = record {
    state = [];
    max_requests = max_requests;
    window_secs = window_secs;
    trust_xff = true;
  }

  unfoldable pub with_xff_trust : Bool → RateLimiter Ip → RateLimiter Ip
  with_xff_trust trust l = record l { trust_xff = trust }

  unfoldable pub check : ℕ → Ip → RateLimiter Ip → Verdict × RateLimiter Ip
  unfolding check_bucket
  check now ip l =
      let r = check_bucket l.max_requests l.window_secs now (Map.get ip l.state) in
      (r.0, record l { state = Map.insert ip r.1 l.state })

  abbrev pub or_else : Option Ip → Option Ip → Option Ip
  or_else none b = b
  or_else (some a) b = some a

  abbrev pub parse_header : (String → Option Ip) → Option String → Option Ip
  parse_header parse none = none
  parse_header parse (some s) = parse (first_part s)

  -- `parse` reads an address with the space around it; the header's text is `none` where it is missing
  -- or is no text.
  unfoldable pub client_ip : (String → Option Ip) → Ip → Bool → Option String → Option Ip → Ip
  client_ip parse localhost trust_xff forwarded_for peer =
      unwrap_or localhost
        (or_else (if trust_xff then parse_header parse forwarded_for else none) peer)

  -- What the middleware decides of a request; `allowed` runs the handler.
  unfoldable pub rate_limit_middleware :
      (String → Option Ip)
      → Ip
      → ℕ
      → String
      → Option String
      → Option Ip
      → RateLimiter Ip
      → Verdict × RateLimiter Ip
  unfolding is_exempt client_ip check
  rate_limit_middleware parse localhost now path forwarded_for peer l =
      if is_exempt path
      then (allowed, l)
      else check now (client_ip parse localhost l.trust_xff forwarded_for peer) l

-- ===== src/Jobs/Workers.antt =====
-- Workers and their tokens (crates/atomo_server/src/jobs.rs): `WorkerIdentity` and `WorkerTokenStore`.
-- The digest of a token is a parameter; so are the id and the token that `mint` draws, and the clock.
pub mod Tokens
use Prim.Native.Char.{code}
use Prim.Native.String.{String, slice, len, ◌++◌ as str_append}
use text.Mathlib.Text.{find?}
use atomo.Prelude.{
  ℕ, zero, suc, ◌+◌, Bool, true, false, ◌&&◌, ◌||◌, not, Option, none, some, List, [], ◌∷◌, ◌++◌,
  leb, nat_eq, str_eq, if◌then◌else◌,
}
use atomo.Prelude.Int.{ℤ}
use atomo.Prelude.Sorting.{sort_by}
use atomo.Jobs.Store.{Result, ok, err, unique_violation}

pub record WorkerIdentity : Type 0 where
  pub id : String
  pub name : String
  pub queues : List String
  pub capabilities : List String

abbrev pub any : (String → Bool) → List String → Bool
any p [] = false
any p (x ∷ xs) = p x || any p xs

abbrev pub part : (String → String → List String) → String → String → Option ℕ → List String
part rest s separator none = s ∷ []
part rest s separator (some i) = slice s 0 i ∷ rest (slice s (i + len separator) (len s)) separator

-- `str::splitn`; with as many parts as the text has bytes, and one, it is `str::split`.
unfoldable pub splitn : ℕ → String → String → List String
splitn zero s separator = []
splitn (suc zero) s separator = s ∷ []
splitn (suc (suc n)) s separator = part (λ r p. splitn (suc n) r p) s separator (find? s separator)

abbrev pub lower : ℕ → ℕ
lower c = if leb 65 c && leb c 90 then c + 32 else c

abbrev pub eq_ignore_ascii_case : String → String → Bool
eq_ignore_ascii_case String.[] String.[] = true
eq_ignore_ascii_case String.[] (String.◌∷◌ d t) = false
eq_ignore_ascii_case (String.◌∷◌ c s) String.[] = false
eq_ignore_ascii_case (String.◌∷◌ c s) (String.◌∷◌ d t) =
    nat_eq (lower (code c)) (lower (code d)) && eq_ignore_ascii_case s t

unfoldable pub may_lease : String → WorkerIdentity → Bool
may_lease queue w = any (λ q. str_eq q "*" || str_eq q queue) w.queues

-- The parts of a capability against a model and an operation.
abbrev pub grants_crud : String → String → List String → Bool
grants_crud model op (kind ∷ m ∷ []) = str_eq kind "crud" && str_eq m model
grants_crud model op (kind ∷ m ∷ ops ∷ []) =
    str_eq kind "crud"
    && (str_eq m model && any (λ o. eq_ignore_ascii_case o op) (splitn (suc (len ops)) ops ","))
grants_crud model op _ = false

unfoldable pub may_crud : String → String → WorkerIdentity → Bool
unfolding splitn
may_crud model op w =
    any (λ c. str_eq c "crud:*" || grants_crud model op (splitn 3 c ":")) w.capabilities

abbrev pub grants_action : String → List String → Bool
grants_action action (kind ∷ a ∷ []) = str_eq kind "action" && str_eq a action
grants_action action _ = false

unfoldable pub may_action : String → WorkerIdentity → Bool
unfolding splitn
may_action action w =
    any (λ c. str_eq c "action:*" || grants_action action (splitn 2 c ":")) w.capabilities

-- A row of `worker_tokens`.
pub record WorkerToken : Type 0 where
  pub id : String
  pub name : String
  pub token_sha256 : String
  pub queues : List String
  pub capabilities : List String
  pub is_revoked : Bool
  pub created_at : ℕ

abbrev pub any_token : (WorkerToken → Bool) → List WorkerToken → Bool
any_token p [] = false
any_token p (r ∷ rs) = p r || any_token p rs

abbrev pub find_token : (WorkerToken → Bool) → List WorkerToken → Option WorkerToken
find_token p [] = none
find_token p (r ∷ rs) = if p r then some r else find_token p rs

-- `UPDATE worker_tokens SET is_revoked = true WHERE …`
abbrev pub revoke_where : (WorkerToken → Bool) → List WorkerToken → List WorkerToken
revoke_where p [] = []
revoke_where p (r ∷ rs) = (if p r then record r { is_revoked = true } else r) ∷ revoke_where p rs

abbrev pub identity_of : Option WorkerToken → Option WorkerIdentity
identity_of none = none
identity_of (some r) =
    some (record { id = r.id; name = r.name; queues = r.queues; capabilities = r.capabilities })

-- `WHERE id = $1 AND is_revoked = false`
abbrev pub is_live : String → WorkerToken → Bool
is_live id r = str_eq r.id id && not r.is_revoked

abbrev pub token_row : String → String → List String → List String → ℕ → String → WorkerToken
token_row id name queues capabilities now digest = record {
  id = id;
  name = name;
  token_sha256 = digest;
  queues = queues;
  capabilities = capabilities;
  is_revoked = false;
  created_at = now;
}

module _ (sha256_hex : String → String) where
  -- `id` is the primary key, and `token_sha256` is unique.
  unfoldable pub mint :
      String
      → List String
      → List String
      → ℕ
      → String
      → String
      → List WorkerToken
      → Result (String × String) × List WorkerToken
  mint name queues capabilities now id drawn rows =
      let token = str_append "wkr_" drawn in
      let digest = sha256_hex token in
      if any_token (λ r. str_eq r.id id) rows || any_token (λ r. str_eq r.token_sha256 digest) rows
      then (err unique_violation, rows)
      else (ok (id, token), rows ++ token_row id name queues capabilities now digest ∷ [])

  unfoldable pub verify : String → List WorkerToken → Option WorkerIdentity
  verify token rows =
      identity_of
        (find_token (λ r. str_eq r.token_sha256 (sha256_hex token) && not r.is_revoked) rows)

unfoldable pub revoke : String → List WorkerToken → Bool × List WorkerToken
revoke id rows = (any_token (is_live id) rows, revoke_where (is_live id) rows)

-- What `list` shows: no digest.
pub record WorkerTokenInfo : Type 0 where
  pub id : String
  pub name : String
  pub queues : List String
  pub capabilities : List String
  pub is_revoked : Bool
  pub created_at : ℕ

abbrev pub infos : List WorkerToken → List WorkerTokenInfo
infos [] = []
infos (r ∷ rs) =
    record {
      id = r.id;
      name = r.name;
      queues = r.queues;
      capabilities = r.capabilities;
      is_revoked = r.is_revoked;
      created_at = r.created_at;
    }
    ∷ infos rs

unfoldable pub list : List WorkerToken → List WorkerTokenInfo
list rows = infos (sort_by (λ a b. leb b.created_at a.created_at) rows)

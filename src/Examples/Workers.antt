-- ===== src/Examples/Workers.antt =====
-- Workers, what they may do, and their tokens (crates/atomo_server/src/jobs.rs).
use atomo.Prelude.{String, true, false, some, List, [], ◌∷◌, ◌≡◌, refl}
use atomo.Jobs.Workers.{WorkerIdentity, splitn, may_lease, may_crud, may_action, mint, verify}
use atomo.Jobs.Workers.Tokens.{Call, mints, revokes, run, verify-mint}

-- A worker whose capabilities are as a deployment would write them.
abbrev worker : WorkerIdentity
worker = record {
  id = "w1";
  name = "importer";
  queues = "mail" ∷ [];
  capabilities = "crud:Post" ∷ "crud:Comment:read,update" ∷ "action:notify" ∷ [];
}

capabilities_of_worker :
    (may_crud "Post" "delete" worker ≡ true)
    × (may_crud "Comment" "UPDATE" worker ≡ true)
    × (may_crud "Comment" "delete" worker ≡ false)
    × (may_crud "User" "read" worker ≡ false)
    × (may_action "notify" worker ≡ true)
    × (may_action "other" worker ≡ false)
    × (may_lease "mail" worker ≡ true)
unfolding may_crud may_action may_lease splitn
capabilities_of_worker = (refl, refl, refl, refl, refl, refl, refl)

-- The digest of a token is the token here.
abbrev digest : String → String
digest token = token

abbrev token_calls : List Call
token_calls =
    mints "other" [] [] 2 "w2" "key2" ∷ revokes "w2" ∷ mints "again" [] [] 3 "w3" "key" ∷ []

verify-mint_example :
    verify digest "wkr_key"
      (run digest token_calls (mint digest "importer" ("mail" ∷ []) [] 1 "w1" "key" []).1)
    ≡ some (record { id = "w1"; name = "importer"; queues = "mail" ∷ []; capabilities = [] })
unfolding mint
verify-mint_example =
    verify-mint digest "importer" ("mail" ∷ []) [] 1 "w1" "key" "wkr_key" [] token_calls refl

-- ===== src/Jobs/Workers/Tokens.antt =====
-- How long a worker's token is good (crates/atomo_server/src/jobs.rs).
use Prim.Native.String.{String, ◌++◌ as str_append}
use atomo.Prelude.{
  ℕ, Bool, true, false, ◌&&◌, ◌||◌, not, none, some, List, [], ◌∷◌, ◌++◌, filter, str_eq,
  if◌then◌else◌, ◌≡◌, refl, sym, ap, ◌∙◌, subst, arith, Bool-cases, inl, inr, eq_iff,
}
use atomo.Jobs.Store.{ok}
use atomo.Jobs.Workers.{
  WorkerToken, any_token, find_token, revoke_where, identity_of, is_live, token_row, mint, verify,
  revoke,
}

-- The calls that change the table of tokens.
pub data Call : Type 0 where
  mints : String → List String → List String → ℕ → String → String → Call
  revokes : String → Call

abbrev pub revoked_by : String → List Call → Bool
revoked_by id [] = false
revoked_by id (mints name queues capabilities now i drawn ∷ rest) = revoked_by id rest
revoked_by id (revokes i ∷ rest) = str_eq id i || revoked_by id rest

abbrev digested : String → WorkerToken → Bool
digested d r = str_eq r.token_sha256 d

find_live :
    (d : String) (rows : List WorkerToken)
    → find_token (λ r. str_eq r.token_sha256 d && not r.is_revoked) rows
      ≡ find_token (λ r. not r.is_revoked) (filter (digested d) rows)
find_live d [] = refl
find_live d (r ∷ rs) = ground (arith, find_live d rs)

filter-append :
    (p : WorkerToken → Bool) (xs ys : List WorkerToken)
    → filter p (xs ++ ys) ≡ filter p xs ++ filter p ys
filter-append p [] ys = refl
filter-append p (x ∷ xs) ys = ground (arith, filter-append p xs ys)

filter-absent :
    (p : WorkerToken → Bool) (rows : List WorkerToken)
    → any_token p rows ≡ false
    → filter p rows ≡ []
filter-absent p [] h = refl
filter-absent p (r ∷ rs) h = ground (arith, h, filter-absent p rs)

filter-revoke_where :
    (p : WorkerToken → Bool) (d : String) (rows : List WorkerToken)
    → filter (digested d) (revoke_where p rows) ≡ revoke_where p (filter (digested d) rows)
filter-revoke_where p d [] = refl
filter-revoke_where p d (r ∷ rs) = ground (arith, filter-revoke_where p d rs)

module _ (sha256_hex : String → String) where
  abbrev pub call : Call → List WorkerToken → List WorkerToken
  call (mints name queues capabilities now id drawn) rows =
      (mint sha256_hex name queues capabilities now id drawn rows).1
  call (revokes id) rows = (revoke id rows).1

  unfoldable pub run : List Call → List WorkerToken → List WorkerToken
  run [] rows = rows
  run (c ∷ rest) rows = run rest (call c rows)

  -- The row of a digest, which is the only one.
  abbrev Holds : WorkerToken → List WorkerToken → Type 0
  Holds r rows = filter (digested r.token_sha256) rows ≡ r ∷ []

  minted-Holds :
      (name : String) (queues capabilities : List String) (now : ℕ) (id drawn : String)
      (r : WorkerToken) (rows : List WorkerToken)
      → Holds r rows
      → Holds r (mint sha256_hex name queues capabilities now id drawn rows).1
  unfolding mint
  minted-Holds name queues capabilities now id drawn r rows h =
      let digest = sha256_hex (str_append "wkr_" drawn) in
      let row = token_row id name queues capabilities now digest in
      let clash =
        any_token (λ (x : WorkerToken). str_eq x.id id) rows || any_token (digested digest) rows in
      elim (Bool-cases clash) [
        | inl refused ↦ ground (arith, refused, h)
        | inr free ↦ elim (Bool-cases (str_eq digest r.token_sha256)) [
          | inl same ↦
              let absent = filter-absent (digested digest) rows (ground (arith, free)) in
              let there =
                subst (λ (x : String). filter (digested x) rows ≡ r ∷ [])
                  (sym ((eq_iff digest r.token_sha256).0 same)) h in
              ground (arith, absent, there)
          | inr other ↦
              ground
                (arith, free, other, filter-append (digested r.token_sha256) rows (row ∷ []), h)
        ]
      ]

  run_lem :
      (calls : List Call) (token : String) (r : WorkerToken) (rows : List WorkerToken)
      → Holds r rows
      → r.token_sha256 ≡ sha256_hex token
      → verify sha256_hex token (run calls rows)
        ≡ (if r.is_revoked || revoked_by r.id calls then none else identity_of (some r))
  unfolding run verify revoke
  run_lem [] token r rows h d =
      let at = subst (λ (x : String). filter (digested x) rows ≡ r ∷ []) d h in
      ap identity_of (
        find_live (sha256_hex token) rows
        ∙ ap (find_token (λ (x : WorkerToken). not x.is_revoked)) at)
      ∙ ground arith
  run_lem (mints name queues capabilities now id drawn ∷ rest) token r rows h d =
      run_lem rest token r (mint sha256_hex name queues capabilities now id drawn rows).1
        (minted-Holds name queues capabilities now id drawn r rows h) d
  run_lem (revokes id ∷ rest) token r rows h d =
      let live = is_live id in
      let rows' = revoke_where live rows in
      let at = filter-revoke_where live r.token_sha256 rows ∙ ap (revoke_where live) h in
      elim (Bool-cases (is_live id r)) [
        | inl ends ↦
            run_lem rest token (record r { is_revoked = true }) rows' (at ∙ rw ends refl) d
            ∙ ground (arith, ends)
        | inr other ↦ run_lem rest token r rows' (at ∙ rw other refl) d ∙ ground (arith, other)
      ]

  -- A token that was minted is verified as the worker that it was minted for through any calls of
  -- `mint` and `revoke`, and from the first that revokes its id on as nobody.
  pub verify-mint :
      (name : String) (queues capabilities : List String) (now : ℕ) (id drawn token : String)
      (rows : List WorkerToken) (calls : List Call)
      → (mint sha256_hex name queues capabilities now id drawn rows).0 ≡ ok (id, token)
      → verify sha256_hex token
          (run calls (mint sha256_hex name queues capabilities now id drawn rows).1)
        ≡ (if revoked_by id calls
            then none
            else some
                (record { id = id; name = name; queues = queues; capabilities = capabilities }))
  unfolding mint
  verify-mint name queues capabilities now id drawn token rows calls h =
      let minted = str_append "wkr_" drawn in
      let digest = sha256_hex minted in
      let row = token_row id name queues capabilities now digest in
      let clash =
        any_token (λ (x : WorkerToken). str_eq x.id id) rows || any_token (digested digest) rows in
      elim (Bool-cases clash) [
        | inl refused ↦ ground (arith, refused, h)
        | inr free ↦
            let after = (mint sha256_hex name queues capabilities now id drawn rows).1 in
            let absent = filter-absent (digested digest) rows (ground (arith, free)) in
            let holds : Holds row (rows ++ row ∷ []) =
              filter-append (digested digest) rows (row ∷ [])
              ∙ ground (arith, absent, eq_iff digest digest) in
            let added : after ≡ rows ++ row ∷ [] = ground (arith, free) in
            let drew : minted ≡ token = ground (arith, free, h) in
            subst
              (λ (x : String).
                verify sha256_hex x (run calls after)
                ≡ (if revoked_by id calls then none else identity_of (some row)))
              drew
              (ap (λ (x : List WorkerToken). verify sha256_hex minted (run calls x)) added
                ∙ run_lem calls minted row (rows ++ row ∷ []) holds refl)
      ]

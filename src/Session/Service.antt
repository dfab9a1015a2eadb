-- ===== src/Session/Service.antt =====
-- internal/feature/auth/session.go and session_cleanup.go: the service over the repository.
-- `GenerateToken` of the JWT library, the SHA-256 digest and the source of random tokens are not code
-- of the repository: they are the fields of `Deps` and the argument `draw`, whose k-th value is what
-- the k-th call of `generateOpaqueToken` in the request returns.
use stock_backend.Prelude.{ℕ, ◌+◌, Option, none, some, String, ◌==◌, if◌then◌else◌, string_eq}
use stock_backend.Database.{Result, ok, err, pure, fail, inspect}
use stock_backend.Session.Store.{
  RefreshSession, TokenHash, Error, refresh_token_invalid, refresh_token_expired,
  refresh_token_reused, refresh_token_conflict, session_unavailable, token_generation_failed,
  access_token_failed, CreateParams,
}
use stock_backend.Session.Repository
use stock_backend.Session.Repository.{DbExec, Factory}

pub record Deps : Type 0 where
  pub hash_refresh_token : String → TokenHash
  pub generate_jwt : ℕ → String → Option String
  pub refresh_ttl : ℕ

pub record TokenPair : Type 0 where
  pub access_token : String
  pub refresh_token : String
  pub refresh_expires_at : ℕ

abbrev pub Draw : Type 0
Draw = ℕ → Option String

-- One call of `generateOpaqueToken` and the rest of the function.
unfoldable pub with_token :
    {A : Type 0} → Option String → (String → Result Error A) → Result Error A
with_token none k = err token_generation_failed
with_token (some token) k = k token

abbrev pub session_params : Deps → String → String → ℕ → String → ℕ → CreateParams
session_params d id family_id user_id raw now = record {
  id = id;
  family_id = family_id;
  user_id = user_id;
  token_hash = d.hash_refresh_token raw;
  expires_at = now + d.refresh_ttl;
}

unfoldable pub new_refresh_session :
    Deps → Draw → ℕ → String → ℕ → Result Error (String × CreateParams)
unfolding with_token
new_refresh_session d draw user_id family_id now = with_token (draw 0) λ id.
    if family_id == ""
    then with_token (draw 1)
        (λ f. with_token (draw 2) (λ raw. ok (raw, session_params d id f user_id raw now)))
    else with_token (draw 1) (λ raw. ok (raw, session_params d id family_id user_id raw now))

unfoldable pub with_access_token :
    {A : Type 0} → Option String → (String → Result Error A) → Result Error A
with_access_token none k = err access_token_failed
with_access_token (some token) k = k token

abbrev pub token_pair : String → String → ℕ → TokenPair
token_pair access raw expires_at = record {
  access_token = access;
  refresh_token = raw;
  refresh_expires_at = expires_at;
}

-- What `Issue` has in hand when it comes to the repository.
unfoldable pub prepare :
    Deps → Draw → ℕ → String → ℕ → Result Error (String × String × CreateParams)
unfolding new_refresh_session with_access_token
prepare d draw user_id email now = elim (new_refresh_session d draw user_id "" now) [
  | err e ↦ err e
  | ok (raw, session) ↦
      with_access_token (d.generate_jwt user_id email) (λ access. ok (access, raw, session))
]

unfoldable pub issued : String → String → Result Error RefreshSession → DbExec TokenPair
issued access raw (err e) = fail session_unavailable
issued access raw (ok row) = pure (token_pair access raw row.expires_at)

unfoldable pub issue_prepared : Result Error (String × String × CreateParams) → DbExec TokenPair
unfolding issued
issue_prepared (err e) = fail e
issue_prepared (ok (access, raw, session)) =
    λ c. inspect (issued access raw) (Repository.create (some session) c)

unfoldable pub issue : Deps → Draw → ℕ → ℕ → String → DbExec TokenPair
unfolding prepare issue_prepared
issue d draw now user_id email = issue_prepared (prepare d draw user_id email now)

-- The closure that `Refresh` hands to `Rotate`; the pair is what it leaves in the variable `pair`.
unfoldable pub next_factory : Deps → Draw → ℕ → Factory TokenPair
unfolding new_refresh_session with_access_token
next_factory d draw now current email =
    elim (new_refresh_session d draw current.user_id current.family_id now) [
      | err e ↦ err e
      | ok (raw, next) ↦
          with_access_token (d.generate_jwt current.user_id email)
            (λ access. ok (some next, token_pair access raw next.expires_at))
    ]

-- The closure's own errors (`issueErr`) and the four verdicts on the token pass; any other error of
-- the repository is reported as an unavailable session store.
unfoldable pub refresh_error : Error → Error
refresh_error token_generation_failed = token_generation_failed
refresh_error access_token_failed = access_token_failed
refresh_error refresh_token_invalid = refresh_token_invalid
refresh_error refresh_token_expired = refresh_token_expired
refresh_error refresh_token_reused = refresh_token_reused
refresh_error refresh_token_conflict = refresh_token_conflict
refresh_error _ = session_unavailable

unfoldable pub refreshed : Result Error TokenPair → DbExec TokenPair
unfolding refresh_error
refreshed (err e) = fail (refresh_error e)
refreshed (ok pair) = pure pair

unfoldable pub refresh : Deps → Draw → ℕ → String → DbExec TokenPair
unfolding next_factory refreshed
refresh d draw now token = if token == "" then fail refresh_token_invalid else λ c.
    inspect refreshed
      (Repository.rotate (d.hash_refresh_token token) now (some (next_factory d draw now)) c)

unfoldable pub revoked : Result Error (Unit {0}) → DbExec (Unit {0})
revoked (err e) = fail session_unavailable
revoked (ok u) = pure tt

unfoldable pub revoke : Deps → ℕ → String → DbExec (Unit {0})
unfolding revoked
revoke d now token = if token == "" then pure tt else λ c.
    inspect revoked (Repository.revoke (d.hash_refresh_token token) now c)

unfoldable pub cleaned : Result Error ℕ → DbExec ℕ
cleaned (err e) = fail e
cleaned (ok n) = pure n

unfoldable pub cleanup_expired : ℕ → DbExec ℕ
unfolding cleaned
cleanup_expired now c = inspect cleaned (Repository.delete_expired_sessions now c)

-- ===== src/Session/Repository.antt =====
-- internal/feature/auth/session_repository.go: each method as a computation on a connection.
use stock_backend.Prelude.{
  ℕ, ◌+◌, ◌*◌, ◌^◌, Bool, true, false, Option, none, some, String, leb, if◌then◌else◌, is_some,
}
use stock_backend.Database.{
  Result, ok, err, Exec, pure, fail, statement, query, execute, begin, commit, deferred_rollback,
  autocommit, ◌>>=◌, ◌>>◌,
}
use stock_backend.Session.Store.{
  RefreshSession, TokenHash, Db, CreateParams, Error, refresh_token_invalid, refresh_token_expired,
  refresh_token_reused, refresh_token_conflict, nil_session, nil_factory, driver,
  create_refresh_session, find_session, find_family, session_with_email, consume_session,
  revoke_family, delete_expired,
}

-- 30 seconds.
abbrev pub refresh_token_reuse_grace_period : ℕ
refresh_token_reuse_grace_period = 30 * 10 ^ 9

abbrev pub DbExec : Type 0 → Type 0
DbExec A = Exec Db Error A

unfoldable pub create : Option CreateParams → DbExec RefreshSession
create none = fail nil_session
create (some p) = autocommit (statement driver (create_refresh_session p))

or_invalid : Option RefreshSession → DbExec RefreshSession
or_invalid none = fail refresh_token_invalid
or_invalid (some s) = pure s

unfoldable pub find_by_token_hash : TokenHash → DbExec RefreshSession
unfolding or_invalid
find_by_token_hash h = do found ← query driver (find_session h); or_invalid found

-- The advisory lock of the family: the statement waits, and changes no row.
unfoldable pub lock_family_of : Option String → DbExec Bool
lock_family_of none = pure false
lock_family_of (some f) = do query driver (λ t. tt); pure true

unfoldable pub lock_refresh_session_family : TokenHash → DbExec Bool
unfolding lock_family_of
lock_refresh_session_family h = do family ← query driver (find_family h); lock_family_of family

-- `RefreshSessionFactory`, with the value that the closure leaves behind in its caller.
abbrev pub Factory : Type 0 → Type 0
Factory A = RefreshSession → String → Result Error (Option CreateParams × A)

module _ {A : Type 0} where
  -- The next session takes its owner and its family from the current one, whatever the factory set.
  unfoldable pub replace : RefreshSession → ℕ → Result Error (Option CreateParams × A) → DbExec A
  replace current now (err e) = fail e
  replace current now (ok (none, a)) = fail nil_session
  replace current now (ok (some next, a)) = do
    statement driver (
        create_refresh_session
          (record next { user_id = current.user_id; family_id = current.family_id }))
    execute driver (consume_session current.id now next.id)
    commit driver
    pure a

  -- A token presented again: within the grace period a concurrent refresh, after it a theft.
  unfoldable pub replayed : RefreshSession → ℕ → ℕ → DbExec A
  replayed current at now =
      if leb now (at + refresh_token_reuse_grace_period) then fail refresh_token_conflict else do
        execute driver (revoke_family current.family_id now)
        commit driver
        fail refresh_token_reused

  unfoldable pub rotate_unconsumed : Factory A → RefreshSession → String → ℕ → DbExec A
  unfolding replace
  rotate_unconsumed factory current email now =
      if leb current.expires_at now
      then fail refresh_token_expired
      else replace current now (factory current email)

  unfoldable pub rotate_consumed : Factory A → RefreshSession → String → ℕ → Option ℕ → DbExec A
  unfolding replayed rotate_unconsumed
  rotate_consumed factory current email now (some at) = replayed current at now
  rotate_consumed factory current email now none = rotate_unconsumed factory current email now

  unfoldable pub rotate_row : Factory A → ℕ → Option (RefreshSession × String) → DbExec A
  unfolding rotate_consumed
  rotate_row factory now none = fail refresh_token_invalid
  rotate_row factory now (some (current, email)) =
      if is_some current.revoked_at
      then fail refresh_token_invalid
      else rotate_consumed factory current email now current.consumed_at

  unfoldable pub rotate_locked : TokenHash → ℕ → Factory A → Bool → DbExec A
  unfolding rotate_row
  rotate_locked h now factory false = fail refresh_token_invalid
  rotate_locked h now factory true = do
    row ← query driver (session_with_email h)
    rotate_row factory now row

  unfoldable pub rotate : TokenHash → ℕ → Option (Factory A) → DbExec A
  unfolding lock_refresh_session_family rotate_locked
  rotate h now none = fail nil_factory
  rotate h now (some factory) =
      deferred_rollback
        (do begin driver; found ← lock_refresh_session_family h; rotate_locked h now factory found)

unfoldable pub revoke_row : ℕ → Option RefreshSession → DbExec (Unit {0})
revoke_row now none = do commit driver; pure tt
revoke_row now (some current) = do
  execute driver (revoke_family current.family_id now)
  commit driver
  pure tt

unfoldable pub revoke_locked : TokenHash → ℕ → Bool → DbExec (Unit {0})
unfolding revoke_row
revoke_locked h now false = pure tt
revoke_locked h now true = do row ← query driver (find_session h); revoke_row now row

-- Revoke of a token that is not stored succeeds.
unfoldable pub revoke : TokenHash → ℕ → DbExec (Unit {0})
unfolding lock_refresh_session_family revoke_locked
revoke h now =
    deferred_rollback
      (do begin driver; found ← lock_refresh_session_family h; revoke_locked h now found)

unfoldable pub delete_expired_sessions : ℕ → DbExec ℕ
delete_expired_sessions before = autocommit (statement driver (λ t. ok (delete_expired before t)))

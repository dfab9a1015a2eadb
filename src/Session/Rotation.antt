-- ===== src/Session/Rotation.antt =====
-- What the presentation of a refresh token does to the tables, told from the row that it finds and
-- apart from the code of `Rotate` and `Revoke`: the specification that the repository implements.
pub mod Refinement
pub mod Exchange
use stock_backend.Prelude.{ℕ, ◌+◌, Option, none, some, String, ltb, if◌then◌else◌}
use stock_backend.Database.{Result, ok, err}
use stock_backend.Session.Store.{
  RefreshSession, TokenHash, Db, CreateParams, Error, refresh_token_invalid, refresh_token_expired,
  refresh_token_reused, refresh_token_conflict, nil_session, create_refresh_session, find_session,
  session_with_email, consume_session, revoke_family,
}
use stock_backend.Session.Repository.{refresh_token_reuse_grace_period, Factory}

pub data Verdict : Type 0 where
  unknown dead conflict expired : Verdict
  theft : RefreshSession → Verdict
  live : RefreshSession → String → Verdict

-- A token is live as long as it is not revoked, not consumed and not expired. A consumed one is a
-- conflict up to and including the end of the grace period, and a theft from then on.
unfoldable pub judge_row : ℕ → RefreshSession → String → Option ℕ → Option ℕ → Verdict
judge_row now s email (some at) consumed_at = dead
judge_row now s email none (some at) =
    if ltb (at + refresh_token_reuse_grace_period) now then theft s else conflict
judge_row now s email none none = if ltb now s.expires_at then live s email else expired

unfoldable pub judge : ℕ → Option (RefreshSession × String) → Verdict
unfolding judge_row
judge now none = unknown
judge now (some (s, email)) = judge_row now s email s.revoked_at s.consumed_at

abbrev pub verdict : TokenHash → ℕ → Db → Verdict
verdict h now t = judge now (session_with_email h t)

abbrev pub successor : RefreshSession → CreateParams → CreateParams
successor s next = record next { user_id = s.user_id; family_id = s.family_id }

module _ {A : Type 0} where
  abbrev pub inserted :
      RefreshSession
      → ℕ
      → String
      → A
      → Db
      → Result Error (RefreshSession × Db)
      → Result Error A × Db
  inserted s now next a t (err e) = (err e, t)
  inserted s now next a t (ok (row, t')) = (ok a, consume_session s.id now next t')

  abbrev pub exchange :
      RefreshSession → ℕ → Db → Result Error (Option CreateParams × A) → Result Error A × Db
  exchange s now t (err e) = (err e, t)
  exchange s now t (ok (none, a)) = (err nil_session, t)
  exchange s now t (ok (some next, a)) =
      inserted s now next.id a t (create_refresh_session (successor s next) t)

  unfoldable pub answer : Factory A → ℕ → Db → Verdict → Result Error A × Db
  answer factory now t unknown = (err refresh_token_invalid, t)
  answer factory now t dead = (err refresh_token_invalid, t)
  answer factory now t conflict = (err refresh_token_conflict, t)
  answer factory now t expired = (err refresh_token_expired, t)
  answer factory now t (theft s) = (err refresh_token_reused, revoke_family s.family_id now t)
  answer factory now t (live s email) = exchange s now t (factory s email)

-- Revocation takes the family of the token, if it is stored.
unfoldable pub revoked_tables : ℕ → Db → Option RefreshSession → Db
revoked_tables now t none = t
revoked_tables now t (some s) = revoke_family s.family_id now t

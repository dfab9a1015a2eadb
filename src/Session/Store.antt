-- ===== src/Session/Store.antt =====
-- The tables `users` and `refresh_sessions` (db/migrations), their rows, and the statements of
-- internal/feature/auth/sqlc that work on sessions. Times are nanoseconds.
use mathlib.Core.Option
use stock_backend.Prelude.{
  false, ℕ, Bool, not, ◌&&◌, Option, none, some, List, ◌∷◌, String, ltb, ◌==◌, if◌then◌else◌,
  length, find_by, any, keep, update_where, count_by, is_none, nat_eq, string_eq, list_eq,
}
use stock_backend.Database.{Result, ok, err}

pub record User : Type 0 where
  pub id : ℕ
  pub email : String
  pub password_hash : Option String

-- The SHA-256 digest of a token, as bytes.
abbrev pub TokenHash : Type 0
TokenHash = List ℕ

pub record RefreshSession : Type 0 where
  pub id : String
  pub family_id : String
  pub user_id : ℕ
  pub token_hash : TokenHash
  pub expires_at : ℕ
  pub consumed_at : Option ℕ
  pub revoked_at : Option ℕ
  pub replaced_by : Option String
  pub created_at : ℕ

-- `clock` is the server's `now()`, the default of `created_at`.
pub record Db : Type 0 where
  pub users : List User
  pub sessions : List RefreshSession
  pub clock : ℕ

-- The sentinel errors of errors.go, those that the repository makes itself, and what the driver and
-- the table's constraints report. A wrapped error counts as the error that `errors.Is` finds in it.
pub data Error : Type 0 where
  refresh_token_invalid refresh_token_expired refresh_token_reused refresh_token_conflict : Error
  session_unavailable nil_session nil_factory constraint_violation : Error
  token_generation_failed access_token_failed : Error
  driver : ℕ → Error

abbrev pub has_hash : TokenHash → RefreshSession → Bool
has_hash h s = s.token_hash == h

abbrev pub has_id : String → RefreshSession → Bool
has_id i s = s.id == i

abbrev pub has_family : String → RefreshSession → Bool
has_family f s = s.family_id == f

-- The columns that CreateRefreshSession writes.
pub record CreateParams : Type 0 where
  pub id : String
  pub family_id : String
  pub user_id : ℕ
  pub token_hash : TokenHash
  pub expires_at : ℕ

abbrev pub new_row : Db → CreateParams → RefreshSession
new_row t p = record {
  id = p.id;
  family_id = p.family_id;
  user_id = p.user_id;
  token_hash = p.token_hash;
  expires_at = p.expires_at;
  consumed_at = none;
  revoked_at = none;
  replaced_by = none;
  created_at = t.clock;
}

-- The primary key, `uq_refresh_sessions_token_hash`, the digest's length and the user's foreign key.
unfoldable pub insertable : Db → CreateParams → Bool
insertable t p =
    not (any (has_id p.id) t.sessions)
    && (not (any (has_hash p.token_hash) t.sessions)
        && (length p.token_hash == 32 && any (λ u. User.id u == p.user_id) t.users))

unfoldable pub create_refresh_session : CreateParams → Db → Result Error (RefreshSession × Db)
unfolding insertable
create_refresh_session p t =
    if insertable t p
    then ok (new_row t p, record t { sessions = new_row t p ∷ t.sessions })
    else err constraint_violation

unfoldable pub find_session : TokenHash → Db → Option RefreshSession
find_session h t = find_by (has_hash h) t.sessions

unfoldable pub find_family : TokenHash → Db → Option String
find_family h t = Option.map (λ s. RefreshSession.family_id s) (find_by (has_hash h) t.sessions)

-- The join with `users` also gives the owner's email.
abbrev pub with_email : List User → Option RefreshSession → Option (RefreshSession × String)
with_email us none = none
with_email us (some s) =
    Option.map (λ u. (s, User.email u)) (find_by (λ u. User.id u == s.user_id) us)

unfoldable pub session_with_email : TokenHash → Db → Option (RefreshSession × String)
session_with_email h t = with_email t.users (find_by (has_hash h) t.sessions)

abbrev pub consume : ℕ → String → RefreshSession → RefreshSession
consume now next s = record s { consumed_at = some now; replaced_by = some next }

unfoldable pub consume_session : String → ℕ → String → Db → Db
consume_session i now next t = record t {
  sessions = update_where (has_id i) (consume now next) t.sessions;
}

abbrev pub revoke : ℕ → RefreshSession → RefreshSession
revoke now s = record s { revoked_at = some now }

-- Rows that are revoked already keep their time.
unfoldable pub revoke_family : String → ℕ → Db → Db
revoke_family f now t = record t {
  sessions =
      update_where (λ s. has_family f s && is_none (RefreshSession.revoked_at s)) (revoke now)
        t.sessions;
}

abbrev pub is_expired : ℕ → RefreshSession → Bool
is_expired before s = ltb s.expires_at before

-- `ON DELETE SET NULL` of `fk_refresh_sessions_replaced_by`.
abbrev pub is_successor : Option String → RefreshSession → Bool
is_successor none s = false
is_successor (some i) s = has_id i s

abbrev pub replaced_by_one_of : List RefreshSession → RefreshSession → Bool
replaced_by_one_of gone s = any (is_successor s.replaced_by) gone

abbrev pub clear_successor : RefreshSession → RefreshSession
clear_successor s = record s { replaced_by = none }

unfoldable pub delete_expired : ℕ → Db → ℕ × Db
delete_expired before t = (
  count_by (is_expired before) t.sessions,
  record t {
    sessions =
        update_where (replaced_by_one_of (keep (is_expired before) t.sessions)) clear_successor
          (keep (λ s. not (is_expired before s)) t.sessions);
  },
)

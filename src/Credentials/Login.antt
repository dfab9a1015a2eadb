-- ===== src/Credentials/Login.antt =====
-- internal/feature/auth/credentials.go: signup and login. bcrypt, HMAC and the text functions of Go's
-- library are the fields of `Passwords`.
pub mod Stored
pub mod RoundTrip
pub mod Checks
use stock_backend.Prelude.{
  ℕ, Bool, true, false, not, Option, none, some, String, ltb, ◌==◌, if◌then◌else◌, string_eq,
}
use stock_backend.Database.{Result, ok, err, Conn, pure, fail, inspect}
use stock_backend.Session.Store
use stock_backend.Session.Store.{User}
use stock_backend.Session.Service
use stock_backend.Session.Service.{Deps, Draw, TokenPair}
use stock_backend.Credentials.Users.{
  Error, UserExec, invalid_password, invalid_credentials, user_not_found, hash_failed, session,
  create, find_by_email,
}

pub record Passwords : Type 0 where
  pub normalize_email : String → String
  pub rune_count : String → ℕ
  pub byte_length : String → ℕ
  pub hmac_hex : String → String → String
  pub generate_from_password : String → Option String
  pub compare_hash : String → String → Bool
  pub pepper : String
  pub dummy_hash : String

abbrev pub min_password_length : ℕ
min_password_length = 12

abbrev pub max_password_length : ℕ
max_password_length = 1024

module _ (p : Passwords) where
  unfoldable pub pepper_password : String → String
  pepper_password password = if p.pepper == "" then password else p.hmac_hex p.pepper password

  -- `validatePassword` with no error.
  unfoldable pub valid_password : String → Bool
  valid_password password =
      if ltb (p.rune_count password) min_password_length
      then false
      else not (ltb max_password_length (p.byte_length password))

  unfoldable pub signed_up : Result Error User → UserExec ℕ
  signed_up (ok u) = pure u.id
  signed_up (err e) = fail e

  unfoldable pub sign_up_hashed : ℕ → String → Option String → UserExec ℕ
  unfolding signed_up
  sign_up_hashed id email none = fail hash_failed
  sign_up_hashed id email (some hash) =
      λ c. inspect signed_up (create id (some (email, some hash)) c)

  unfoldable pub signup : ℕ → String → String → UserExec ℕ
  unfolding valid_password sign_up_hashed pepper_password
  signup id email password =
      if valid_password password
      then sign_up_hashed id (p.normalize_email email)
          (p.generate_from_password (pepper_password password))
      else fail invalid_password

  module _ (d : Deps) (draw : Draw) (now : ℕ) where
    unfoldable pub session_issued : Result Store.Error TokenPair → UserExec TokenPair
    session_issued (ok pair) = pure pair
    session_issued (err e) = fail (session e)

    -- The comparison runs in every case, against the dummy hash where the user has none; its result
    -- counts only where the user has a hash.
    unfoldable pub checked : User → Option String → String → UserExec TokenPair
    unfolding session_issued
    checked u none password = fail invalid_credentials
    checked u (some hash) password =
        if p.compare_hash hash password
        then (λ c. inspect session_issued (Service.issue d draw now u.id u.email c))
        else fail invalid_credentials

    -- `errors.Is(err, ErrUserNotFound)`
    unfoldable pub lookup_error : Error → Error
    lookup_error user_not_found = invalid_credentials
    lookup_error e = e

    unfoldable pub found : String → Result Error User → UserExec TokenPair
    unfolding checked lookup_error
    found password (ok u) = checked u u.password_hash password
    found password (err e) = fail (lookup_error e)

    unfoldable pub login : String → String → UserExec TokenPair
    unfolding found pepper_password
    login email password =
        if ltb max_password_length (p.byte_length password) then fail invalid_credentials else (λ c.
          inspect (found (pepper_password password)) (find_by_email (p.normalize_email email) c))

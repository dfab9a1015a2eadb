-- ===== src/Oauth/Store.antt =====
-- The table `oauth_accounts` (db/migrations/00001_init_schema.sql) beside the tables of users and
-- sessions, oauth_account_repository.go, and `CreateUserWithOAuthAccount` of user_repository.go. An
-- error that fmt.Errorf wraps is the error. The value of a new user's identity column is the argument
-- `id`.
use stock_backend.Prelude.{
  ℕ, Bool, ◌&&◌, ◌||◌, Option, none, some, List, ◌∷◌, String, ◌==◌, if◌then◌else◌, find_by, any,
  nat_eq, string_eq,
}
use stock_backend.Database.{
  Result, ok, err, Conn, Exec, pure, fail, statement, query, begin, commit, deferred_rollback,
  autocommit, inspect, ◌>>=◌, ◌>>◌,
}
use stock_backend.Session.Store
use stock_backend.Session.Store.{User, Db}
use stock_backend.Credentials.Users
use stock_backend.Credentials.Users.{create_user, map_email_unique_err, has_user_id}

pub record OauthAccount : Type 0 where
  pub user_id : ℕ
  pub provider : String
  pub provider_uid : String

pub record Tables : Type 0 where
  pub auth : Db
  pub oauth_accounts : List OauthAccount

pub data Error : Type 0 where
  unknown_provider state_not_found oauth_email_unavailable oauth_email_conflict : Error
  account_unique_violation account_foreign_key_violation nil_argument random_failed : Error
  state_store exchange_failed driver : ℕ → Error
  users : Users.Error → Error
  session : Store.Error → Error

-- A failed call is the same error wherever it is made.
unfoldable pub users_error : Users.Error → Error
users_error (Users.driver x) = driver x
users_error e = users e

abbrev pub TableExec : Type 0 → Type 0
TableExec A = Exec Tables Error A

abbrev pub lifted : {A : Type 0} → Tables → Result Users.Error (A × Db) → Result Error (A × Tables)
lifted t (ok (a, auth)) = ok (a, record t { auth = auth })
lifted t (err e) = err (users e)

-- A part of the program that has the tables of users and sessions only, on the same connection.
abbrev pub answered :
    {E A : Type 0} → (E → Error) → Conn Tables → Result E A × Conn Db → Result Error A × Conn Tables
answered wrap c (ok a, d) = (
  ok a,
  record c {
    durable = record c.durable { auth = d.durable };
    working = record c.working { auth = d.working };
    calls = d.calls;
  },
)
answered wrap c (err e, d) = (
  err (wrap e),
  record c {
    durable = record c.durable { auth = d.durable };
    working = record c.working { auth = d.working };
    calls = d.calls;
  },
)

abbrev pub auth_view : Conn Tables → Conn Db
auth_view c = record {
  durable = c.durable.auth;
  working = c.working.auth;
  calls = c.calls;
  fault = c.fault;
}

abbrev pub on_auth : {E A : Type 0} → (E → Error) → Exec Db E A → TableExec A
on_auth wrap m c = answered wrap c (m (auth_view c))

abbrev pub of_provider : String → String → OauthAccount → Bool
of_provider provider uid a = a.provider == provider && a.provider_uid == uid

abbrev pub of_user_provider : ℕ → String → OauthAccount → Bool
of_user_provider user_id provider a = a.user_id == user_id && a.provider == provider

abbrev pub new_account : ℕ → String → String → OauthAccount
new_account user_id provider uid = record {
  user_id = user_id;
  provider = provider;
  provider_uid = uid;
}

-- The primary key, the unique pair of user and provider, the reference to the user.
unfoldable pub create_oauth_account :
    ℕ → String → String → Tables → Result Error (OauthAccount × Tables)
create_oauth_account user_id provider uid t =
    if any (of_provider provider uid) t.oauth_accounts
      || any (of_user_provider user_id provider) t.oauth_accounts
    then err account_unique_violation
    else if any (has_user_id user_id) t.auth.users
    then ok (
      new_account user_id provider uid,
      record t { oauth_accounts = new_account user_id provider uid ∷ t.oauth_accounts },
    )
    else err account_foreign_key_violation

unfoldable pub find_oauth_account : String → String → Tables → Option OauthAccount
find_oauth_account provider uid t = find_by (of_provider provider uid) t.oauth_accounts

unfoldable pub or_not_found : Result Error (Option OauthAccount) → TableExec OauthAccount
or_not_found (ok (some a)) = pure a
or_not_found (ok none) = fail (users Users.user_not_found)
or_not_found (err e) = fail e

-- `FindByProvider`
unfoldable pub find_by_provider : String → String → TableExec OauthAccount
unfolding or_not_found
find_by_provider provider uid c =
    inspect or_not_found (autocommit (query driver (find_oauth_account provider uid)) c)

-- `Create`
unfoldable pub create : Option OauthAccount → TableExec OauthAccount
create none = fail nil_argument
create (some a) =
    autocommit (statement driver (create_oauth_account a.user_id a.provider a.provider_uid))

unfoldable pub insert_user : ℕ → String → Option String → Tables → Result Error (User × Tables)
insert_user id email password_hash t = lifted t (create_user id email password_hash t.auth)

-- `mapEmailUniqueErr` of any error.
unfoldable pub map_email_err : Error → Error
map_email_err (users e) = users (map_email_unique_err e)
map_email_err e = e

unfoldable pub user_row : Result Error User → TableExec User
unfolding map_email_err
user_row (ok u) = pure u
user_row (err e) = fail (map_email_err e)

unfoldable pub link_user : String → String → User → TableExec ℕ
link_user provider uid u = do
  statement driver (create_oauth_account u.id provider uid)
  commit driver
  pure u.id

-- `CreateUserWithOAuthAccount`; the answer is the id that it leaves in the user.
unfoldable pub create_user_with_oauth_account :
    ℕ → Option (String × Option String) → Option (String × String) → TableExec ℕ
unfolding user_row link_user
create_user_with_oauth_account id (some (email, password_hash)) (some (provider, uid)) =
    deferred_rollback (do
      begin driver
      u ← (λ c. inspect user_row (statement driver (insert_user id email password_hash) c))
      link_user provider uid u)
create_user_with_oauth_account id none account = fail nil_argument
create_user_with_oauth_account id (some u) none = fail nil_argument

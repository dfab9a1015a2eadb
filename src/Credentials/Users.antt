-- ===== src/Credentials/Users.antt =====
-- internal/feature/auth/user_repository.go over the table `users`. The value of the identity column
-- comes from the server's sequence: it is the argument `id`.
use stock_backend.Prelude.{
  ℕ, Bool, ◌||◌, Option, none, some, ◌∷◌, String, ◌==◌, if◌then◌else◌, find_by, any, nat_eq,
  string_eq,
}
use stock_backend.Database.{
  Result, ok, err, Exec, pure, fail, statement, query, autocommit, inspect,
}
use stock_backend.Session.Store
use stock_backend.Session.Store.{User, Db}

-- `session` wraps what the session service reports.
pub data Error : Type 0 where
  invalid_password invalid_credentials email_already_exists user_not_found nil_user : Error
  unique_violation hash_failed : Error
  driver : ℕ → Error
  session : Store.Error → Error

abbrev pub UserExec : Type 0 → Type 0
UserExec A = Exec Db Error A

abbrev pub has_email : String → User → Bool
has_email email u = u.email == email

abbrev pub has_user_id : ℕ → User → Bool
has_user_id id u = u.id == id

abbrev pub new_user : ℕ → String → Option String → User
new_user id email password_hash = record { id = id; email = email; password_hash = password_hash }

-- The primary key and the unique email.
unfoldable pub create_user : ℕ → String → Option String → Db → Result Error (User × Db)
create_user id email password_hash t =
    if any (has_user_id id) t.users || any (has_email email) t.users
    then err unique_violation
    else ok (
      new_user id email password_hash,
      record t { users = new_user id email password_hash ∷ t.users },
    )

unfoldable pub find_user_by_email : String → Db → Option User
find_user_by_email email t = find_by (has_email email) t.users

unfoldable pub find_user_by_id : ℕ → Db → Option User
find_user_by_id id t = find_by (has_user_id id) t.users

-- `mapEmailUniqueErr`
unfoldable pub map_email_unique_err : Error → Error
map_email_unique_err unique_violation = email_already_exists
map_email_unique_err e = e

unfoldable pub created : Result Error User → UserExec User
unfolding map_email_unique_err
created (ok u) = pure u
created (err e) = fail (map_email_unique_err e)

unfoldable pub create : ℕ → Option (String × Option String) → UserExec User
unfolding created
create id none = fail nil_user
create id (some (email, password_hash)) =
    λ c. inspect created (autocommit (statement driver (create_user id email password_hash)) c)

unfoldable pub or_not_found : Result Error (Option User) → UserExec User
or_not_found (ok (some u)) = pure u
or_not_found (ok none) = fail user_not_found
or_not_found (err e) = fail e

unfoldable pub find_by_email : String → UserExec User
unfolding or_not_found
find_by_email email c =
    inspect or_not_found (autocommit (query driver (find_user_by_email email)) c)

unfoldable pub find_by_id : ℕ → UserExec User
unfolding or_not_found
find_by_id id c = inspect or_not_found (autocommit (query driver (find_user_by_id id)) c)

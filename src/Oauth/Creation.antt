-- ===== src/Oauth/Creation.antt =====
-- `CreateUserWithOAuthAccount` (internal/feature/auth/user_repository.go) as a function on the tables.
use stock_backend.Prelude.{
  ℕ, suc, ◌≡◌, refl, inl, inr, ◌||◌, Option, none, some, Option-cases, ◌∷◌, String, if◌then◌else◌,
  any, Bool-cases, beq_refl, nat_eq, string_eq,
}
use stock_backend.Database.{
  Result, ok, err, Conn, pure, statement, commit, continue, applied, inspect, ◌>>◌,
}
use stock_backend.Database.Agrees.{Agrees, Agrees-begin, Agrees-commit, Agrees-statement}
use stock_backend.Session.Store.{User}
use stock_backend.Credentials.Users
use stock_backend.Credentials.Users.{
  create_user, has_email, has_user_id, new_user, map_email_unique_err,
}
use stock_backend.Oauth.Store.{
  Tables, OauthAccount, Error, driver, users, account_unique_violation, of_provider,
  of_user_provider, new_account, create_oauth_account, insert_user, map_email_err, user_row,
  link_user, create_user_with_oauth_account,
}

-- The user and the account together, or the tables as they were.
unfoldable pub both_created : ℕ → String → String → String → Tables → Result Error ℕ × Tables
both_created id email provider uid t =
    if any (has_user_id id) t.auth.users || any (has_email email) t.auth.users
    then (err (users Users.email_already_exists), t)
    else if any (of_provider provider uid) t.oauth_accounts
        || any (of_user_provider id provider) t.oauth_accounts
    then (err account_unique_violation, t)
    else (
      ok id,
      record {
        auth = record t.auth { users = new_user id email none ∷ t.auth.users };
        oauth_accounts = new_account id provider uid ∷ t.oauth_accounts;
      },
    )

abbrev conn : Tables → (ℕ → Option ℕ) → Tables → ℕ → Conn Tables
conn d fault t n = record { durable = d; working = t; calls = n; fault = fault }

module _ (d : Tables) (fault : ℕ → Option ℕ) (provider uid : String) where
  abbrev account_made : User → Result Error (OauthAccount × Tables) → Result Error ℕ × Tables
  account_made u (ok (a, t)) = (ok u.id, t)
  account_made u (err e) = (err e, d)

  account-Agrees :
      (n : ℕ) (t : Tables) (u : User) (r : Result Error (OauthAccount × Tables))
      → Agrees driver
          (conn d fault t n)
          (continue (λ _. do commit driver; pure u.id) (applied (conn d fault t n) r))
          (account_made u r)
  account-Agrees n t u (ok (a, t')) =
      Agrees-commit driver (conn d fault t' (suc n)) (ok u.id) t' refl
  account-Agrees n t u (err e) = inr (refl, refl)

  link_user-Agrees :
      (n : ℕ) (t : Tables) (u : User)
      → Agrees driver
          (conn d fault t n)
          (link_user provider uid u (conn d fault t n))
          (account_made u (create_oauth_account u.id provider uid t))
  unfolding link_user
  link_user-Agrees n t u =
      Agrees-statement driver (conn d fault t n) (create_oauth_account u.id provider uid)
        (λ _. do commit driver; pure u.id) _
        (account-Agrees n t u (create_oauth_account u.id provider uid t))

  abbrev user_made : Result Error (User × Tables) → Result Error ℕ × Tables
  user_made (ok (u, t)) = account_made u (create_oauth_account u.id provider uid t)
  user_made (err e) = (err (map_email_err e), d)

  user-Agrees :
      (n : ℕ) (r : Result Error (User × Tables))
      → Agrees driver
          (conn d fault d n)
          (continue (link_user provider uid) (inspect user_row (applied (conn d fault d n) r)))
          (user_made r)
  unfolding user_row
  user-Agrees n (ok (u, t)) = link_user-Agrees (suc n) t u
  user-Agrees n (err e) = inr (refl, refl)

  inserted-Agrees :
      (n id : ℕ) (email : String)
      → Agrees driver
          (conn d fault d n)
          (continue
            (link_user provider uid)
            (inspect user_row (statement driver (insert_user id email none) (conn d fault d n))))
          (user_made (insert_user id email none d))
  unfolding user_row map_email_err
  inserted-Agrees n id email = elim (Option-cases (fault n)) [
    | inl e ↦ rw e (user-Agrees n (insert_user id email none d))
    | inr (x, e) ↦ rw e (inl (n, x, e, refl, refl))
  ]

  user_made-both_created :
      (id : ℕ) (email : String)
      → user_made (insert_user id email none d) ≡ both_created id email provider uid d
  unfolding insert_user create_user create_oauth_account both_created map_email_err
      map_email_unique_err
  user_made-both_created id email =
      elim (Bool-cases (any (has_user_id id) d.auth.users || any (has_email email) d.auth.users)) [
        | inl e ↦ rw e refl
        | inr e ↦
            elim (Bool-cases (
              any (of_provider provider uid) d.oauth_accounts
              || any (of_user_provider id provider) d.oauth_accounts)) [
                | inl f ↦ rw (e, f) refl
                | inr f ↦ rw (e, f, beq_refl id) refl
              ]
      ]

-- The transaction creates the user and the linked account together, or answers with the violated
-- constraint and creates neither; or a call failed and neither is there.
pub create_user_with_oauth_account-Agrees :
    (id : ℕ) (email provider uid : String) (c : Conn Tables)
    → Agrees driver c
        (create_user_with_oauth_account id (some (email, none)) (some (provider, uid)) c)
        (both_created id email provider uid c.durable)
unfolding create_user_with_oauth_account
create_user_with_oauth_account-Agrees id email provider uid c =
    rw (← user_made-both_created c.durable c.fault provider uid id email) (
      Agrees-begin driver c _ _
        (inserted-Agrees c.durable c.fault provider uid (suc c.calls) id email))

-- ===== src/Oauth/Linking.antt =====
-- `findOrCreateUser` (internal/feature/auth/oauth.go): which user a provider's account stands for.
use stock_backend.Prelude.{
  ℕ, suc, ◌≡◌, refl, sym, ap, ◌∙◌, inl, inr, ◌||◌, none, some, Option-cases, String, any, All,
  Bool-cases, beq_refl, nat_eq, string_eq,
}
use stock_backend.Database.{Result, ok, err, Conn, statement, inspect}
use stock_backend.Database.Agrees.{Agrees}
use stock_backend.Session.Store.{User}
use stock_backend.Credentials.Users
use stock_backend.Credentials.Users.{
  find_by_email, find_user_by_email, has_email, has_user_id, user_not_found, email_already_exists,
}
use stock_backend.Oauth.Store
use stock_backend.Oauth.Store.{
  Tables, OauthAccount, Error, TableExec, driver, users, users_error, oauth_email_conflict,
  account_unique_violation, on_auth, of_provider, of_user_provider, new_account, find_oauth_account,
  find_by_provider, create_user_with_oauth_account,
}
use stock_backend.Oauth.Flow.{
  Usecase, OauthUserInfo, email_looked_up, account_looked_up, find_or_create_user,
}
use stock_backend.Oauth.Creation.{both_created}
use stock_backend.Oauth.Registration.{KeepsTables, registered, new_user-Agrees}

module _ (uc : Usecase) (id : ℕ) (provider : String) (info : OauthUserInfo)
    (meanwhile : Tables → Tables) where
  abbrev run : Conn Tables → Result Error ℕ × Conn Tables
  run c = find_or_create_user uc id provider info meanwhile c

  -- After the lookup of the account.
  abbrev by_email : Conn Tables → Result Error ℕ × Conn Tables
  by_email c =
      inspect (email_looked_up uc id provider info meanwhile)
        (on_auth users_error (find_by_email info.email) c)

  by_email_refused :
      (c : Conn Tables) (u : User)
      → find_user_by_email info.email c.durable.auth ≡ some u
      → Agrees driver c (by_email c) (err oauth_email_conflict, c.durable)
  unfolding email_looked_up find_by_email Users.or_not_found users_error
  by_email_refused c u f = elim (Option-cases (c.fault c.calls)) [
    | inr (x, e) ↦ inl (c.calls, x, e, rw (e, statement) refl, rw (e, statement) refl)
    | inl e ↦ rw (e, statement, f) (inr (refl, refl))
  ]

  -- A provider's account that is linked logs its user in and changes no table, whatever email the
  -- provider reports; or a call failed and the tables are as they were.
  pub linked_account-Agrees :
      (c : Conn Tables) (a : OauthAccount)
      → find_oauth_account provider info.provider_uid c.durable ≡ some a
      → Agrees driver c (run c) (ok a.user_id, c.durable)
  unfolding find_or_create_user account_looked_up find_by_provider Store.or_not_found
  linked_account-Agrees c a f = elim (Option-cases (c.fault c.calls)) [
    | inr (x, e) ↦ inl (c.calls, x, e, rw (e, statement) refl, rw (e, statement) refl)
    | inl e ↦ rw (e, statement, f) (inr (refl, refl))
  ]

  -- An account that is not linked and reports the email of an existing user is refused, and nothing is
  -- linked; or a call failed and the tables are as they were.
  pub taken_email-Agrees :
      (c : Conn Tables) (u : User)
      → find_oauth_account provider info.provider_uid c.durable ≡ none
      → find_user_by_email info.email c.durable.auth ≡ some u
      → Agrees driver c (run c) (err oauth_email_conflict, c.durable)
  unfolding find_or_create_user account_looked_up find_by_provider Store.or_not_found
  taken_email-Agrees c u none_there f = elim (Option-cases (c.fault c.calls)) [
    | inr (x, e) ↦ inl (c.calls, x, e, rw (e, statement) refl, rw (e, statement) refl)
    | inl e ↦
        rw (e, statement, none_there)
          (by_email_refused (record c { working = c.durable; calls = suc c.calls }) u f)
  ]

abbrev value : Result Error ℕ → ℕ
value (ok id) = id
value (err e) = 0

-- The account that a registration leaves is the one that the next lookup finds.
registered_found :
    (id uid : ℕ) (email provider provider_uid : String) (t : Tables)
    → (registered id email provider provider_uid t).0 ≡ ok uid
    → (a : OauthAccount) × (find_oauth_account provider provider_uid
          (registered id email provider provider_uid t).1
        ≡ some a)
      × (a.user_id ≡ uid)
unfolding registered both_created find_oauth_account
registered_found id uid email provider provider_uid t h =
    elim (Bool-cases (any (has_user_id id) t.auth.users || any (has_email email) t.auth.users)) [
      | inl e ↦ absurd (let no : err oauth_email_conflict ≡ ok uid = rw e at h in cc)
      | inr e ↦
          elim (Bool-cases (
            any (of_provider provider provider_uid) t.oauth_accounts
            || any (of_user_provider id provider) t.oauth_accounts)) [
              | inl f ↦
                  absurd (let no : err account_unique_violation ≡ ok uid = rw (e, f) at h in cc)
              | inr f ↦
                  let same : ok id ≡ ok uid = rw (e, f) at h in
                  (
                    new_account id provider provider_uid,
                    rw (e, f, beq_refl provider, beq_refl provider_uid) refl,
                    ap value same,
                  )
            ]
    ]

module _ (uc : Usecase) (keep : All KeepsTables uc.hooks) (id : ℕ) (provider : String)
    (info : OauthUserInfo) (meanwhile : Tables → Tables) (c : Conn Tables) where
  abbrev logged_in : Result Error ℕ × Conn Tables
  logged_in = find_or_create_user uc id provider info meanwhile c

  abbrev Found : ℕ → Type 0
  Found uid =
      (a : OauthAccount) × (find_oauth_account provider info.provider_uid logged_in.1.durable
        ≡ some a)
      × (a.user_id ≡ uid)

  failed_not : {uid : ℕ} (e : Error) → logged_in.0 ≡ err e → logged_in.0 ≡ ok uid → Found uid
  failed_not {uid} e f h = absurd (let no : err e ≡ ok uid = sym f ∙ h in cc)

  found_linked :
      (uid : ℕ) (a : OauthAccount)
      → find_oauth_account provider info.provider_uid c.durable ≡ some a
      → logged_in.0 ≡ ok uid
      → Found uid
  found_linked uid a f h = elim (linked_account-Agrees uc id provider info meanwhile c a f) [
    | inl (n, x, _, e, _) ↦ failed_not (driver x) e h
    | inr (e, same) ↦ (a, rw same f, ap value (sym e ∙ h))
  ]

  found_new :
      (uid : ℕ)
      → Agrees driver
          (record c { durable = meanwhile c.durable })
          logged_in
          (registered id info.email provider info.provider_uid (meanwhile c.durable))
      → logged_in.0 ≡ ok uid
      → Found uid
  found_new uid (inl (n, x, _, e, _)) h = failed_not (driver x) e h
  found_new uid (inr (e, same)) h = rw same (
      registered_found id uid info.email provider info.provider_uid (meanwhile c.durable)
        (sym e ∙ h))

  found_after : (uid : ℕ) → logged_in.0 ≡ ok uid → Found uid
  found_after uid h =
      elim (Option-cases (find_oauth_account provider info.provider_uid c.durable)) [
        | inr (a, f) ↦ found_linked uid a f h
        | inl f ↦ elim (Option-cases (find_user_by_email info.email c.durable.auth)) [
          | inr (u, g) ↦ elim (taken_email-Agrees uc id provider info meanwhile c u f g) [
            | inl (n, x, _, e, _) ↦ failed_not (driver x) e h
            | inr (e, _) ↦ failed_not oauth_email_conflict e h
          ]
          | inl g ↦ elim (new_user-Agrees uc keep id provider info meanwhile c f g) [
            | inl (n, x, _, e, _) ↦ failed_not (driver x) e h
            | inr agrees ↦ found_new uid agrees h
          ]
        ]
      ]

  -- After a login by a provider's account that succeeded, with hooks that keep these tables, a later one
  -- by the same account resolves to the same user, whatever email it reports then, and changes no table;
  -- or a call failed.
  pub find_or_create_user_again :
      (uid later_id : ℕ) (later : OauthUserInfo) (others : Tables → Tables)
      → later.provider_uid ≡ info.provider_uid
      → logged_in.0 ≡ ok uid
      → Agrees driver logged_in.1
          (find_or_create_user uc later_id provider later others logged_in.1)
          (ok uid, logged_in.1.durable)
  find_or_create_user_again uid later_id later others same h =
      let found = found_after uid h in
      rw (← found.2) (
        linked_account-Agrees uc later_id provider later others logged_in.1 found.0
          (rw same found.1))

-- ===== src/Oauth/Registration.antt =====
-- `findOrCreateUser` (internal/feature/auth/oauth.go): a new user.
use stock_backend.Prelude.{
  ℕ, suc, ◌≡◌, refl, ap, ◌∙◌, ◌⊎◌, inl, inr, ◌||◌, none, some, Option-cases, List, [], ◌∷◌, String,
  if◌then◌else◌, any, All, Bool-cases, nat_eq, string_eq,
}
use stock_backend.Database.{Result, ok, err, Conn, pure, statement, inspect, continue}
use stock_backend.Database.Agrees.{Agrees}
use stock_backend.Credentials.Users
use stock_backend.Credentials.Users.{
  find_by_email, find_user_by_email, has_email, has_user_id, user_not_found, email_already_exists,
}
use stock_backend.Oauth.Store
use stock_backend.Oauth.Store.{
  Tables, OauthAccount, Error, TableExec, driver, users, users_error, oauth_email_conflict,
  account_unique_violation, on_auth, of_provider, of_user_provider, new_account, find_oauth_account,
  find_by_provider, create_user_with_oauth_account,
}
use stock_backend.Oauth.Flow.{
  Usecase, Hook, OauthUserInfo, run_hook, run_hooks, after_creation, create_new, email_looked_up,
  account_looked_up, find_or_create_user,
}
use stock_backend.Oauth.Creation.{both_created, create_user_with_oauth_account-Agrees}

-- A hook writes tables of its own feature only.
abbrev pub KeepsTables : Hook → Type 0
KeepsTables hook = (id : ℕ) (c : Conn Tables) → (hook id c).1.durable ≡ c.durable

-- A user with the email is refused; otherwise both rows are there at the end, or none.
unfoldable pub registered : ℕ → String → String → String → Tables → Result Error ℕ × Tables
registered id email provider uid t =
    if any (has_user_id id) t.auth.users || any (has_email email) t.auth.users
    then (err oauth_email_conflict, t)
    else both_created id email provider uid t

abbrev as_conflict : Result Error ℕ → Result Error ℕ
as_conflict (ok id) = ok id
as_conflict (err (users email_already_exists)) = err oauth_email_conflict
as_conflict (err e) = err e

as_conflict-both_created :
    (id : ℕ) (email provider uid : String) (t : Tables)
    → (as_conflict (both_created id email provider uid t).0
        ≡ (registered id email provider uid t).0)
      × ((both_created id email provider uid t).1 ≡ (registered id email provider uid t).1)
unfolding both_created registered
as_conflict-both_created id email provider uid t =
    elim (Bool-cases (any (has_user_id id) t.auth.users || any (has_email email) t.auth.users)) [
      | inl e ↦ rw e (refl, refl)
      | inr e ↦
          elim (Bool-cases (
            any (of_provider provider uid) t.oauth_accounts
            || any (of_user_provider id provider) t.oauth_accounts)) [
              | inl f ↦ rw (e, f) (refl, refl)
              | inr f ↦ rw (e, f) (refl, refl)
            ]
    ]

and_then :
    (id : ℕ) (run : Result Error (Unit {0}) × Conn Tables)
    → run.0 ≡ ok tt
    → ((continue (λ _. pure id) run).0 ≡ ok id)
      × ((continue (λ _. pure id) run).1.durable ≡ run.1.durable)
and_then id (ok u, c) h = (refl, refl)
and_then id (err e, c) h = cc

module _ (uc : Usecase) where
  hooks_keep :
      (hooks : List Hook) (id : ℕ) (c : Conn Tables)
      → All KeepsTables hooks
      → ((run_hooks uc hooks id c).0 ≡ ok tt) × ((run_hooks uc hooks id c).1.durable ≡ c.durable)
  unfolding run_hooks run_hook
  hooks_keep [] id c h = (refl, refl)
  hooks_keep (hook ∷ hooks) id c h =
      let rest = hooks_keep hooks id (hook id c).1 h.1 in (rest.0, rest.1 ∙ h.0 id c)

  module _ (keep : All KeepsTables uc.hooks) where
    after_creation_result :
        (r : Result Error ℕ) (c : Conn Tables)
        → ((after_creation uc r c).0 ≡ as_conflict r)
          × ((after_creation uc r c).1.durable ≡ c.durable)
    unfolding after_creation
    after_creation_result (ok id) c =
        let ran = hooks_keep uc.hooks id c keep in
        let after = and_then id (run_hooks uc uc.hooks id c) ran.0 in (after.0, after.1 ∙ ran.1)
    after_creation_result (err (users email_already_exists)) c = (refl, refl)
    after_creation_result (err e) c = (refl, refl)

    module _ (id : ℕ) (provider : String) (info : OauthUserInfo) (meanwhile : Tables → Tables) where
      finished :
          (c : Conn Tables) (run : Result Error ℕ × Conn Tables)
          → Agrees driver c run (both_created id info.email provider info.provider_uid c.durable)
          → Agrees driver c
              (inspect (after_creation uc) run)
              (registered id info.email provider info.provider_uid c.durable)
      finished c run (inl (n, x, f, e, same)) =
          let after = after_creation_result run.0 run.1 in
          inl (n, x, f, after.0 ∙ ap as_conflict e, after.1 ∙ same)
      finished c run (inr (e, same)) =
          let after = after_creation_result run.0 run.1 in
          let spec = as_conflict-both_created id info.email provider info.provider_uid c.durable in
          inr (after.0 ∙ ap as_conflict e ∙ spec.0, after.1 ∙ same ∙ spec.1)

      -- The transaction starts from what others have committed by then.
      abbrev committed_meanwhile : Conn Tables → Conn Tables
      committed_meanwhile c = record c { durable = meanwhile c.durable }

      create_new-Agrees :
          (c : Conn Tables)
          → Agrees driver
              (committed_meanwhile c)
              (create_new uc id provider info meanwhile c)
              (registered id info.email provider info.provider_uid (meanwhile c.durable))
      unfolding create_new
      create_new-Agrees c = finished (committed_meanwhile c) _ (
          create_user_with_oauth_account-Agrees id info.email provider info.provider_uid
            (committed_meanwhile c))

      abbrev pub CallFailed : Conn Tables → Result Error ℕ × Conn Tables → Type 0
      CallFailed c run =
          (n : ℕ) × (x : ℕ) × (c.fault n ≡ some x)
          × (run.0 ≡ err (driver x))
          × (run.1.durable ≡ c.durable)

      abbrev run : Conn Tables → Result Error ℕ × Conn Tables
      run c = find_or_create_user uc id provider info meanwhile c

      -- After the lookup of the account.
      abbrev by_email : Conn Tables → Result Error ℕ × Conn Tables
      by_email c =
          inspect (email_looked_up uc id provider info meanwhile)
            (on_auth users_error (find_by_email info.email) c)

      by_email_registers :
          (c : Conn Tables)
          → find_user_by_email info.email c.durable.auth ≡ none
          → CallFailed c (by_email c)
            ⊎ Agrees driver
                (committed_meanwhile c)
                (by_email c)
                (registered id info.email provider info.provider_uid (meanwhile c.durable))
      unfolding email_looked_up find_by_email Users.or_not_found users_error
      by_email_registers c f = elim (Option-cases (c.fault c.calls)) [
        | inr (x, e) ↦ inl (c.calls, x, e, rw (e, statement) refl, rw (e, statement) refl)
        | inl e ↦ inr (
            rw (e, statement, f)
              (create_new-Agrees (record c {
                working = record c.working { auth = c.durable.auth };
                calls = suc c.calls;
              })))
      ]

      -- An account that is not linked, with an email that no user has at the lookup, and with hooks that keep
      -- these tables: on what others have committed by the transaction, a taken email is still refused as a
      -- conflict, and otherwise user and account are created together or not at all; or a call failed, before
      -- that or in the transaction, and the tables are as they were.
      pub new_user-Agrees :
          (c : Conn Tables)
          → find_oauth_account provider info.provider_uid c.durable ≡ none
          → find_user_by_email info.email c.durable.auth ≡ none
          → CallFailed c (run c)
            ⊎ Agrees driver
                (committed_meanwhile c)
                (run c)
                (registered id info.email provider info.provider_uid (meanwhile c.durable))
      unfolding find_or_create_user account_looked_up find_by_provider Store.or_not_found
      new_user-Agrees c none_there f = elim (Option-cases (c.fault c.calls)) [
        | inr (x, e) ↦ inl (c.calls, x, e, rw (e, statement) refl, rw (e, statement) refl)
        | inl e ↦
            rw (e, statement, none_there)
              (by_email_registers (record c { working = c.durable; calls = suc c.calls }) f)
      ]

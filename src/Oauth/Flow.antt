-- ===== src/Oauth/Flow.antt =====
-- internal/feature/auth/oauth.go: `BeginAuth` and `HandleCallback`. The providers, the random source,
-- SHA-256 and the encoding, the normal form of an email, the hooks of other features and what other
-- transactions commit meanwhile are arguments.
use stock_backend.Prelude.{
  ℕ, Option, none, some, List, [], ◌∷◌, String, ◌==◌, if◌then◌else◌, string_eq,
}
use stock_backend.Database.{Result, ok, err, Conn, pure, fail, inspect, ◌>>◌}
use stock_backend.Session.Service
use stock_backend.Session.Service.{Deps, Draw, TokenPair}
use stock_backend.Credentials.Users.{find_by_email, user_not_found, email_already_exists}
use stock_backend.Oauth.Store.{
  Tables, OauthAccount, Error, TableExec, unknown_provider, oauth_email_unavailable,
  oauth_email_conflict, random_failed, exchange_failed, users, users_error, session, on_auth,
  find_by_provider, create_user_with_oauth_account,
}
use stock_backend.Oauth.States.{StateStore, save_state, consume_state}
use stock_backend.Session.Store.{User}

pub record OauthUserInfo : Type 0 where
  pub provider_uid : String
  pub email : String

pub record OauthProvider : Type 0 where
  pub authorization_url : String → String → String
  pub exchange_code : String → String → Result ℕ OauthUserInfo

abbrev pub Hook : Type 0
Hook = ℕ → TableExec (Unit {0})

pub record Usecase : Type 0 where
  pub providers : String → Option OauthProvider
  pub code_challenge : String → String
  pub normalize_email : String → String
  pub hooks : List Hook
  pub sessions : Deps

-- The 10 minutes of `oauthStateTTL`, in nanoseconds.
abbrev pub oauth_state_ttl : ℕ
oauth_state_ttl = 600000000000

-- The states in Redis and the connection.
pub record World : Type 0 where
  pub states : StateStore
  pub conn : Conn Tables

abbrev pub Answer : Type 0 → Type 0
Answer A = Result Error A × World

module _ (uc : Usecase) where
  abbrev pub saved :
      OauthProvider
      → String
      → String
      → Conn Tables
      → Result Error (Unit {0}) × StateStore
      → Answer (String × String)
  saved p state verifier c (ok u, s) = (
    ok (p.authorization_url state (uc.code_challenge verifier), state),
    record { states = s; conn = c },
  )
  saved p state verifier c (err e, s) = (err e, record { states = s; conn = c })

  abbrev pub with_random :
      ℕ → OauthProvider → World → Option String → Option String → Answer (String × String)
  with_random now p w none verifier = (err random_failed, w)
  with_random now p w (some state) none = (err random_failed, w)
  with_random now p w (some state) (some verifier) =
      saved p state verifier w.conn (save_state now state verifier oauth_state_ttl w.states)

  -- `BeginAuth`: the URL and the state; two draws of random bytes.
  unfoldable pub begin_auth : Draw → ℕ → String → World → Answer (String × String)
  begin_auth draw now provider w = elim (uc.providers provider) [
    | none ↦ (err unknown_provider, w)
    | some p ↦ with_random now p w (draw 0) (draw 1)
  ]

  -- An error of a hook is logged only.
  unfoldable pub run_hook : Hook → ℕ → TableExec (Unit {0})
  run_hook hook id c = (ok tt, (hook id c).1)

  unfoldable pub run_hooks : List Hook → ℕ → TableExec (Unit {0})
  unfolding run_hook
  run_hooks [] id = pure tt
  run_hooks (hook ∷ hooks) id = do run_hook hook id; run_hooks hooks id

  unfoldable pub after_creation : Result Error ℕ → TableExec ℕ
  unfolding run_hooks
  after_creation (ok id) = do run_hooks uc.hooks id; pure id
  after_creation (err (users email_already_exists)) = fail oauth_email_conflict
  after_creation (err e) = fail e

  module _ (id : ℕ) (provider : String) (info : OauthUserInfo) (meanwhile : Tables → Tables) where
    -- Between the lookup by email and the transaction others may commit.
    unfoldable pub create_new : TableExec ℕ
    unfolding after_creation
    create_new c = inspect after_creation (
        create_user_with_oauth_account id (some (info.email, none))
          (some (provider, info.provider_uid)) (record c { durable = meanwhile c.durable }))

    unfoldable pub email_looked_up : Result Error User → TableExec ℕ
    unfolding create_new
    email_looked_up (ok u) = fail oauth_email_conflict
    email_looked_up (err (users user_not_found)) = create_new
    email_looked_up (err e) = fail e

    unfoldable pub account_looked_up : Result Error OauthAccount → TableExec ℕ
    unfolding email_looked_up users_error
    account_looked_up (ok a) = pure a.user_id
    account_looked_up (err (users user_not_found)) =
        λ c. inspect email_looked_up (on_auth users_error (find_by_email info.email) c)
    account_looked_up (err e) = fail e

    -- `findOrCreateUser`
    unfoldable pub find_or_create_user : TableExec ℕ
    unfolding account_looked_up
    find_or_create_user c =
        inspect account_looked_up (find_by_provider provider info.provider_uid c)

  module _ (draw : Draw) (now id : ℕ) (meanwhile : Tables → Tables) where
    unfoldable pub issued : String → Result Error ℕ → TableExec TokenPair
    issued email (err e) = fail e
    issued email (ok user_id) = on_auth session (Service.issue uc.sessions draw now user_id email)

    unfoldable pub exchanged : String → Result ℕ OauthUserInfo → TableExec TokenPair
    unfolding issued find_or_create_user
    exchanged provider (err x) = fail (exchange_failed x)
    exchanged provider (ok info) =
        let email = uc.normalize_email info.email in
        if email == "" then fail oauth_email_unavailable else (λ c.
          inspect (issued email)
            (find_or_create_user id provider (record info { email = email }) meanwhile c))

    abbrev pub on_conn : {A : Type 0} → StateStore → Result Error A × Conn Tables → Answer A
    on_conn s (r, c) = (r, record { states = s; conn = c })

    abbrev pub consumed :
        String
        → OauthProvider
        → String
        → Conn Tables
        → Result Error String × StateStore
        → Answer TokenPair
    consumed provider p code c (err e, s) = (err e, record { states = s; conn = c })
    consumed provider p code c (ok verifier, s) =
        on_conn s (exchanged provider (p.exchange_code code verifier) c)

    -- `HandleCallback`
    unfoldable pub handle_callback : String → String → String → World → Answer TokenPair
    handle_callback provider code state w = elim (uc.providers provider) [
      | none ↦ (err unknown_provider, w)
      | some p ↦ consumed provider p code w.conn (consume_state now state w.states)
    ]

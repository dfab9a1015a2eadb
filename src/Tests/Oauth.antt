-- ===== src/Tests/Oauth.antt =====
-- A first and a second login by a provider, and a presented state.
use mathlib.Core.Option
use stock_backend.Prelude.{
  string_eq, arith, ap, ◌≢◌, ◌∷◌, List, ℕ, ◌+◌, ◌≡◌, refl, none, some, [], String, ◌⊎◌, ltb,
  if◌then◌else◌,
}
use stock_backend.Database.{ok, err, Conn}
use stock_backend.Database.Agrees.{Agrees}
use stock_backend.Session.Service.{Draw}
use stock_backend.Tests.Sessions.{thirty_two}
use stock_backend.Credentials.Users.{create_user, find_user_by_email, find_by_email}
use stock_backend.Oauth.Store.{
  Tables, driver, state_not_found, oauth_email_conflict, find_oauth_account, find_by_provider,
  create_user_with_oauth_account, create_oauth_account, insert_user,
}
use stock_backend.Oauth.States.{save_state}
use stock_backend.Oauth.Flow.{
  Usecase, OauthProvider, OauthUserInfo, World, oauth_state_ttl, begin_auth, handle_callback,
  exchanged, find_or_create_user, create_new,
}
use stock_backend.Oauth.Creation.{both_created, create_user_with_oauth_account-Agrees}
use stock_backend.Oauth.Registration.{registered, new_user-Agrees, CallFailed}
use stock_backend.Oauth.Linking.{taken_email-Agrees, find_or_create_user_again}
use stock_backend.Oauth.Replay.{
  StoppedAtState, Visit, begins, calls_back, visits, handle_callback-replay,
}
use stock_backend.Oauth.Begin.{handle_callback-begin_auth}

abbrev info : OauthUserInfo
info = record { provider_uid = "42"; email = "a@b.c" }

abbrev google : OauthProvider
google = record {
  authorization_url = λ state challenge. challenge;
  exchange_code = λ code verifier. ok info;
}

abbrev pub usecase : Usecase
usecase = record {
  providers = λ name. some google;
  code_challenge = λ verifier. verifier;
  normalize_email = λ email. email;
  hooks = [];
  sessions = record {
    hash_refresh_token = λ token. thirty_two 1;
    generate_jwt = λ user_id email. some "jwt";
    refresh_ttl = 10;
  };
}

abbrev no_tables : Tables
no_tables = record { auth = record { users = []; sessions = []; clock = 0 }; oauth_accounts = [] }

abbrev start : Conn Tables
start = record { durable = no_tables; working = no_tables; calls = 0; fault = λ n. none }

abbrev pub draws : Draw
draws k = some "random"

abbrev world : World
world = record { states = record { entries = []; calls = 0; fault = λ n. none }; conn = start }

create_user_with_oauth_account-Agrees_example :
    Agrees driver start
      (create_user_with_oauth_account 3 (some ("a@b.c", none)) (some ("google", "42")) start)
      (both_created 3 "a@b.c" "google" "42" no_tables)
create_user_with_oauth_account-Agrees_example =
    create_user_with_oauth_account-Agrees 3 "a@b.c" "google" "42" start

new_user-Agrees_example :
    CallFailed usecase tt 3 "google" info
      (λ t. t)
      start
      (find_or_create_user usecase 3 "google" info (λ t. t) start)
    ⊎ Agrees driver start
        (find_or_create_user usecase 3 "google" info (λ t. t) start)
        (registered 3 "a@b.c" "google" "42" no_tables)
unfolding find_oauth_account find_user_by_email
new_user-Agrees_example = new_user-Agrees usecase tt 3 "google" info (λ t. t) start refl refl

abbrev first_login : Conn Tables
first_login = (find_or_create_user usecase 3 "google" info (λ t. t) start).1

taken_email-Agrees_example :
    Agrees driver first_login
      (find_or_create_user usecase 4 "github" info (λ t. t) first_login)
      (err oauth_email_conflict, first_login.durable)
unfolding find_oauth_account find_user_by_email find_or_create_user create_new
    create_user_with_oauth_account create_oauth_account insert_user create_user find_by_email
    find_by_provider
taken_email-Agrees_example =
    taken_email-Agrees usecase 4 "github" info (λ t. t) first_login
      (record { id = 3; email = "a@b.c"; password_hash = none }) refl refl

find_or_create_user_again_example :
    Agrees driver first_login
      (find_or_create_user usecase 4 "google" info (λ t. t) first_login)
      (ok 3, first_login.durable)
unfolding find_oauth_account find_user_by_email find_or_create_user create_new
    create_user_with_oauth_account create_oauth_account insert_user create_user find_by_email
    find_by_provider
find_or_create_user_again_example =
    find_or_create_user_again usecase tt 3 "google" info (λ t. t) start 3 4 info (λ t. t) refl refl

abbrev pub begun : World
begun = (begin_auth usecase draws 5 "google" world).1

-- A login that draws other bytes, and a failed callback for another state.
abbrev other_draws : Draw
other_draws n = some "another"

abbrev visitors : List Visit
visitors =
    begins other_draws 6 "google" ∷ calls_back draws 6 5 (λ t. t) "google" "code" "unknown" ∷ []

others_drawn : other_draws 0 ≢ some "random"
others_drawn e =
    ground (arith, string_eq.beq_iff "another" "random", ap (λ o. Option.get_or o "") e)

handle_callback-replay_example :
    (let reached =
        visits usecase visitors
          (handle_callback usecase draws 6 3 (λ t. t) "google" "code" "random" begun).1 in
      StoppedAtState reached
        (handle_callback usecase draws 7 4 (λ t. t) "github" "other" "random" reached))
unfolding begin_auth save_state
handle_callback-replay_example =
    handle_callback-replay usecase draws draws 6 7 3 4 (λ t. t) (λ t. t) "google" "code" "random"
      google begun visitors refl refl (others_drawn, (tt, tt)) "github" "other"

handle_callback-begin_auth_example :
    (p : OauthProvider) × (verifier : String) × (usecase.providers "google" ≡ some p)
    × ("random" ≡ p.authorization_url "random" (usecase.code_challenge verifier))
    × ((later_draw : Draw) (later id : ℕ) (meanwhile : Tables → Tables) (code : String)
        → (handle_callback usecase later_draw later id meanwhile "google" code "random" begun).0 ≡ (
            if ltb later (5 + oauth_state_ttl)
            then (exchanged usecase later_draw later id meanwhile "google"
                (p.exchange_code code verifier)
                begun.conn).0
            else err state_not_found))
unfolding begin_auth save_state
handle_callback-begin_auth_example =
    handle_callback-begin_auth usecase draws 5 "google" world "random" "random" refl refl

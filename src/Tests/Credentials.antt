-- ===== src/Tests/Credentials.antt =====
-- A user signs up and logs in.
use stock_backend.Prelude.{
  if◌then◌else◌, ◌≡◌, refl, true, none, some, [], String, arith, ◌==◌, string_eq,
}
use stock_backend.Tests.Sessions.{thirty_two}
use stock_backend.Database.{ok, err, Conn}
use stock_backend.Session.Store.{User, Db, create_refresh_session}
use stock_backend.Session.Repository
use stock_backend.Session.Service
use stock_backend.Session.Service.{Deps, Draw, TokenPair}
use stock_backend.Credentials.Users.{
  invalid_credentials, find_by_email, find_user_by_email, create_user, create,
}
use stock_backend.Credentials.Login.{Passwords, signup, login}
use stock_backend.Credentials.Login.RoundTrip.{opened, new_user_logs_in}
use stock_backend.Credentials.Login.Checks.{LoggedIn, login-LoggedIn}

-- A hash is the text itself; every text is long enough.
abbrev passwords : Passwords
passwords = record {
  normalize_email = λ e. if e == " A@b.c" then "a@b.c" else e;
  rune_count = λ s. 12;
  byte_length = λ s. 12;
  hmac_hex = λ pepper password. password;
  generate_from_password = λ x. some x;
  compare_hash = λ h x. h == x;
  pepper = "";
  dummy_hash = "dummy";
}

abbrev deps : Deps
deps = record {
  hash_refresh_token = λ token. thirty_two 1;
  generate_jwt = λ user_id email. some "jwt";
  refresh_ttl = 10;
}

abbrev draws : Draw
draws k = some "token"

abbrev start : Conn Db
start = record {
  durable = record { users = []; sessions = []; clock = 0 };
  working = record { users = []; sessions = []; clock = 0 };
  calls = 0;
  fault = λ n. none;
}

matches :
    (x hash : String)
    → passwords.generate_from_password x ≡ some hash
    → passwords.compare_hash hash x ≡ true
matches x hash e = ground (arith, string_eq.beq_iff hash x)

signs_up : (signup passwords 3 " A@b.c" "long password" start).0 ≡ ok 3
unfolding signup create create_user
signs_up = refl

abbrev later : Conn Db
later = (signup passwords 3 " A@b.c" "long password" start).1

later_works : later.fault later.calls ≡ none
unfolding signup create create_user
later_works = refl

new_user_logs_in_example :
    (u : User) × (u.id ≡ 3)
    × (u.email ≡ passwords.normalize_email " A@b.c")
    × (login passwords deps draws 5 " A@b.c" "long password" later
        ≡ opened passwords deps draws 5 u
            (find_by_email (passwords.normalize_email " A@b.c") later).1)
new_user_logs_in_example =
    new_user_logs_in passwords deps draws 5 3 3 " A@b.c" "long password" start later matches
      signs_up refl later_works

abbrev pair : TokenPair
pair = record { access_token = "jwt"; refresh_token = "token"; refresh_expires_at = 15 }

logs_in : (login passwords deps draws 5 " A@b.c" "long password" later).0 ≡ ok pair
unfolding login signup create create_user find_by_email find_user_by_email Service.issue
    create_refresh_session Repository.create
logs_in = refl

refuses : (login passwords deps draws 5 " A@b.c" "other password" later).0 ≡ err invalid_credentials
unfolding login signup create create_user find_by_email find_user_by_email
refuses = refl

login-LoggedIn_example : LoggedIn passwords deps draws 5 " A@b.c" "long password" later pair
login-LoggedIn_example =
    login-LoggedIn passwords deps draws 5 " A@b.c" "long password" later pair logs_in

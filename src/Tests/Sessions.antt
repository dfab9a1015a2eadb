-- ===== src/Tests/Sessions.antt =====
-- One user with one session that is open: a refresh, and the same token once more.
use stock_backend.Prelude.{
  ℕ, zero, suc, ap, ◌≡◌, refl, ◌≢◌, ◌∙◌, Option, none, some, List, [], ◌∷◌, String, arith, ◌==◌,
  if◌then◌else◌, All, nat_eq, string_eq,
}
use stock_backend.Database.{ok, err}
use stock_backend.Database.Agrees.{Agrees}
use stock_backend.Session.Store.{
  RefreshSession, TokenHash, Db, CreateParams, driver, refresh_token_conflict, refresh_token_reused,
  find_session, find_family, session_with_email, create_refresh_session, consume_session,
}
use stock_backend.Session.Repository
use stock_backend.Session.Repository.{Factory}
use stock_backend.Session.Service
use stock_backend.Session.Service.{Deps, Draw, TokenPair, next_factory, prepare}
use stock_backend.Session.Rotation.{answer, verdict, revoked_tables}
use stock_backend.Session.Rotation.Refinement.{rotate-Agrees, revoke-Agrees}
use stock_backend.Session.Rotation.Exchange.{Exchanged, rotate-Exchanged}
use stock_backend.Session.Invariant.{IsValid}
use stock_backend.Session.History.{Request, refreshes, issues, logs_out, cleans, connect, step, run}
use stock_backend.Session.History.Valid.{AllStartFamilies, run-IsValid}
use stock_backend.Session.History.Once.{Avoids, RequestAvoids, refresh_once}

abbrev pub thirty_two : ℕ → TokenHash
thirty_two n =
    n ∷ n ∷ n ∷ n ∷ n ∷ n ∷ n ∷ n ∷ n ∷ n ∷ n ∷ n ∷ n ∷ n ∷ n ∷ n ∷ n ∷ n ∷ n ∷ n ∷ n ∷ n ∷ n ∷ n
    ∷ n ∷ n ∷ n ∷ n ∷ n ∷ n ∷ n ∷ n ∷ []

-- A digest that tells three tokens apart.
abbrev digest : String → TokenHash
digest s = if s == "one" then thirty_two 1 else if s == "two" then thirty_two 2 else thirty_two 3

abbrev pub deps : Deps
deps = record {
  hash_refresh_token = digest;
  generate_jwt = λ user_id email. some "jwt";
  refresh_ttl = 1000;
}

abbrev pub draws : Draw
draws zero = some "id2"
draws (suc zero) = some "two"
draws (suc (suc k)) = none

-- A login draws a family too.
abbrev login_draws : Draw
login_draws zero = some "id3"
login_draws (suc zero) = some "f3"
login_draws (suc (suc k)) = some "three"

abbrev pub no_fault : ℕ → Option ℕ
no_fault n = none

-- The commit of the refresh is the sixth call.
abbrev commit_fault : ℕ → Option ℕ
commit_fault n = if n == 5 then some 1 else none

abbrev one : RefreshSession
one = record {
  id = "id1";
  family_id = "f1";
  user_id = 7;
  token_hash = digest "one";
  expires_at = 500;
  consumed_at = none;
  revoked_at = none;
  replaced_by = none;
  created_at = 0;
}

abbrev pub tables : Db
tables = record {
  users = record { id = 7; email = "user@example.com"; password_hash = none } ∷ [];
  sessions = one ∷ [];
  clock = 100;
}

abbrev pair : TokenPair
pair = record { access_token = "jwt"; refresh_token = "two"; refresh_expires_at = 1100 }

refreshes_pair : (Service.refresh deps draws 100 "one" (connect tables no_fault)).0 ≡ ok pair
unfolding Service.refresh Repository.rotate find_family session_with_email create_refresh_session
refreshes_pair = refl

abbrev after : Db
after = step deps tables (refreshes draws 100 "one" no_fault)

replay_conflict :
    (Service.refresh deps draws 101 "one" (connect after no_fault)).0 ≡ err refresh_token_conflict
unfolding Service.refresh step Repository.rotate find_family session_with_email
    create_refresh_session consume_session
replay_conflict = refl

replay_theft :
    (Service.refresh deps draws 40000000000 "one" (connect after no_fault)).0
    ≡ err refresh_token_reused
unfolding Service.refresh step Repository.rotate find_family session_with_email
    create_refresh_session consume_session
replay_theft = refl

tables-IsValid : IsValid tables
tables-IsValid = record { distinct = (tt, tt); one_open = λ f. ground arith }

abbrev first_byte : TokenHash → ℕ
first_byte [] = 0
first_byte (b ∷ bs) = b

value_or : String → Option String → String
value_or s none = s
value_or s (some x) = x

-- Tokens whose digest starts with another byte than 1.
avoids_one :
    (x raw : String) → some x ≡ some raw → first_byte (digest x) ≢ 1 → digest raw ≢ digest "one"
unfolding value_or
avoids_one x raw e differs same =
    differs (ap (λ y. first_byte (digest y)) (ap (value_or x) e) ∙ ap first_byte same)

draws-Avoids : Avoids deps (digest "one") draws
draws-Avoids zero raw e = avoids_one "id2" raw e (λ h. omega arith)
draws-Avoids (suc zero) raw e = avoids_one "two" raw e (λ h. omega arith)
draws-Avoids (suc (suc k)) raw e = absurd (ground arith)

login_draws-Avoids : Avoids deps (digest "one") login_draws
login_draws-Avoids zero raw e = avoids_one "id3" raw e (λ h. omega arith)
login_draws-Avoids (suc zero) raw e = avoids_one "f3" raw e (λ h. omega arith)
login_draws-Avoids (suc (suc k)) raw e = avoids_one "three" raw e (λ h. omega arith)

abbrev factory : Factory TokenPair
factory = next_factory deps draws 100

rotate-Agrees_example :
    Agrees driver
      (connect tables commit_fault)
      (Repository.rotate (digest "one") 100 (some factory) (connect tables commit_fault))
      (answer factory 100 tables (verdict (digest "one") 100 tables))
rotate-Agrees_example = rotate-Agrees (digest "one") 100 factory (connect tables commit_fault)

revoke-Agrees_example :
    Agrees driver
      (connect tables no_fault)
      (Repository.revoke (digest "one") 100 (connect tables no_fault))
      (ok tt, revoked_tables 100 tables (find_session (digest "one") tables))
revoke-Agrees_example = revoke-Agrees (digest "one") 100 (connect tables no_fault)

rotates_pair :
    (Repository.rotate (digest "one") 100 (some factory) (connect tables no_fault)).0 ≡ ok pair
unfolding Repository.rotate find_family session_with_email create_refresh_session next_factory
rotates_pair = refl

rotate-Exchanged_example :
    Exchanged factory 100 tables
      (verdict (digest "one") 100 tables)
      pair
      (Repository.rotate (digest "one") 100 (some factory) (connect tables no_fault)).1.durable
rotate-Exchanged_example =
    rotate-Exchanged factory 100 pair (digest "one") (connect tables no_fault) rotates_pair

-- A refresh, a login into a new family, the replay, a logout and a cleanup.
abbrev history : List Request
history =
    issues login_draws 110 7 "user@example.com" no_fault
    ∷ refreshes login_draws 120 "one" no_fault
    ∷ logs_out 130 "three" no_fault
    ∷ cleans 2000 commit_fault
    ∷ []

history-Avoids : All (RequestAvoids deps (digest "one")) history
history-Avoids = (login_draws-Avoids, (login_draws-Avoids, (tt, (tt, tt))))

new_family :
    (access raw : String) (p : CreateParams)
    → prepare deps login_draws 7 "user@example.com" 110 ≡ ok (access, raw, p)
    → p.family_id ≡ "f3"
unfolding prepare
new_family access raw p e = ground arith

history-AllStartFamilies : AllStartFamilies deps tables history
history-AllStartFamilies =
    (λ access raw p e. rw (new_family access raw p e) refl, (tt, (tt, (tt, tt))))

run-IsValid_example : IsValid (run deps tables history)
run-IsValid_example = run-IsValid deps tables history tables-IsValid history-AllStartFamilies

refresh_once_example :
    (Service.refresh deps login_draws 140 "one" (
      connect
        (run deps (step deps tables (refreshes draws 100 "one" no_fault)) history)
        no_fault)).0
    ≢ ok pair
refresh_once_example =
    refresh_once deps tables draws 100 "one" no_fault history login_draws 140 no_fault pair pair
      tables-IsValid draws-Avoids history-Avoids refreshes_pair

-- ===== src/Session/History/Steps.antt =====
-- The same of a whole request, through the service.
use stock_backend.Prelude.{
  ℕ, ◌≡◌, refl, sym, subst, inl, inr, true, false, some, String, ◌==◌, Bool-cases, string_eq,
}
use stock_backend.Database.{Result, ok, err, Conn, inspect}
use stock_backend.Session.Store.{
  clear_successor, RefreshSession, Db, CreateParams, Error, refresh_token_invalid, consume, revoke,
  new_row,
}
use stock_backend.Session.Repository
use stock_backend.Session.Rotation.{live, verdict, successor}
use stock_backend.Session.Service
use stock_backend.Session.Service.{Deps, Draw, TokenPair, next_factory, prepare}
use stock_backend.Session.History.{Request, refreshes, issues, logs_out, cleans, connect, step}
use stock_backend.Session.History.Rows.{
  Rows, rotate-Rows, revoke-Rows, delete_expired-Rows, create-Rows,
}

-- The rows that a request may create have the property.
abbrev pub Creates : Deps → (RefreshSession → Type 0) → Db → Request → Type 0
Creates d Q t (refreshes draw now token fault) =
    (s : RefreshSession) (email : String) (next : CreateParams) (pair : TokenPair)
    → verdict (d.hash_refresh_token token) now t ≡ live s email
    → next_factory d draw now s email ≡ ok (some next, pair)
    → Q (new_row t (successor s next))
Creates d Q t (issues draw now user_id email fault) =
    (access raw : String) (p : CreateParams)
    → prepare d draw user_id email now ≡ ok (access, raw, p)
    → Q (new_row t p)
Creates d Q t (logs_out now token fault) = Unit
Creates d Q t (cleans now fault) = Unit

pub refresh-empty :
    (d : Deps) (draw : Draw) (now : ℕ) (token : String) (c : Conn Db)
    → (token == "") ≡ true
    → Service.refresh d draw now token c ≡ (err refresh_token_invalid, c)
unfolding Service.refresh
refresh-empty d draw now token c e = rw e

pub refresh-rotate :
    (d : Deps) (draw : Draw) (now : ℕ) (token : String) (c : Conn Db)
    → (token == "") ≡ false
    → Service.refresh d draw now token c
      ≡ inspect Service.refreshed
          (Repository.rotate (d.hash_refresh_token token) now (some (next_factory d draw now)) c)
unfolding Service.refresh
refresh-rotate d draw now token c e = rw e

pub revoke-empty :
    (d : Deps) (now : ℕ) (token : String) (c : Conn Db)
    → (token == "") ≡ true
    → Service.revoke d now token c ≡ (ok tt, c)
unfolding Service.revoke
revoke-empty d now token c e = rw e

pub revoke-revoke :
    (d : Deps) (now : ℕ) (token : String) (c : Conn Db)
    → (token == "") ≡ false
    → Service.revoke d now token c
      ≡ inspect Service.revoked (Repository.revoke (d.hash_refresh_token token) now c)
unfolding Service.revoke
revoke-revoke d now token c e = rw e

pub refreshed-conn :
    (run : Result Error TokenPair × Conn Db) → (inspect Service.refreshed run).1 ≡ run.1
unfolding Service.refreshed
refreshed-conn (ok pair, c) = refl
refreshed-conn (err e, c) = refl

pub revoked-conn :
    (run : Result Error (Unit {0}) × Conn Db) → (inspect Service.revoked run).1 ≡ run.1
unfolding Service.revoked
revoked-conn (ok u, c) = refl
revoked-conn (err e, c) = refl

pub cleaned-conn : (run : Result Error ℕ × Conn Db) → (inspect Service.cleaned run).1 ≡ run.1
unfolding Service.cleaned
cleaned-conn (ok n, c) = refl
cleaned-conn (err e, c) = refl

pub issued-conn :
    (access raw : String) (run : Result Error RefreshSession × Conn Db)
    → (inspect (Service.issued access raw) run).1 ≡ run.1
unfolding Service.issued
issued-conn access raw (ok row, c) = refl
issued-conn access raw (err e, c) = refl

module _ (Q : RefreshSession → Type 0)
    (consumes : (now : ℕ) (next : String) (s : RefreshSession) → Q s → Q (consume now next s))
    (revokes : (now : ℕ) (s : RefreshSession) → Q s → Q (revoke now s))
    (clears : (s : RefreshSession) → Q s → Q (clear_successor s)) (d : Deps) (t : Db)
    (h : Rows Q t) where
  abbrev AtDurable : {A : Type 0} → Result Error A × Conn Db → Type 0
  AtDurable run = Rows Q run.1.durable

  issue_prepared-Rows :
      (c : Conn Db) (r : Result Error (String × String × CreateParams))
      → c.durable ≡ t
      → ((access raw : String) (p : CreateParams) → r ≡ ok (access, raw, p) → Q (new_row t p))
      → Rows Q (Service.issue_prepared r c).1.durable
  unfolding Service.issue_prepared
  issue_prepared-Rows c (err e) same q = rw same h
  issue_prepared-Rows c (ok (access, raw, p)) same q =
      rw issued-conn
        (create-Rows Q consumes revokes p c (rw same h) (rw same (q access raw p refl)))

  pub step-Rows : (r : Request) → Creates d Q t r → Rows Q (step d t r)
  unfolding step Service.cleanup_expired Service.issue
  step-Rows (refreshes draw now token fault) q = elim (Bool-cases (token == "")) [
    | inl e ↦ subst AtDurable (sym (refresh-empty d draw now token (connect t fault) e)) h
    | inr e ↦ subst AtDurable (sym (refresh-rotate d draw now token (connect t fault) e)) (
        rw refreshed-conn (
          rotate-Rows Q consumes revokes (d.hash_refresh_token token) now (next_factory d draw now)
            (connect t fault) h q))
  ]
  step-Rows (issues draw now user_id email fault) q =
      issue_prepared-Rows (connect t fault) (prepare d draw user_id email now) refl q
  step-Rows (logs_out now token fault) q = elim (Bool-cases (token == "")) [
    | inl e ↦ subst AtDurable (sym (revoke-empty d now token (connect t fault) e)) h
    | inr e ↦ subst AtDurable (sym (revoke-revoke d now token (connect t fault) e)) (
        rw revoked-conn
          (revoke-Rows Q consumes revokes (d.hash_refresh_token token) now (connect t fault) h))
  ]
  step-Rows (cleans now fault) q =
      subst (λ (c : Conn Db). Rows Q c.durable)
        (sym (cleaned-conn (Repository.delete_expired_sessions now (connect t fault))))
        (delete_expired-Rows Q consumes revokes now (connect t fault) clears h)

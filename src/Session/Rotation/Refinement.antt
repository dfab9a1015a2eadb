-- ===== src/Session/Rotation/Refinement.antt =====
-- `Rotate` and `Revoke` of session_repository.go against the specification, with the failures of the
-- driver.
use mathlib.Core.Option
use stock_backend.Prelude.{
  ℕ, suc, ◌+◌, ◌≡◌, refl, inl, inr, true, false, Option, none, some, String, arith, ltb, leb,
  if◌then◌else◌, find_by, is_some, Bool-cases,
}
use stock_backend.Database.{
  Result, ok, err, Conn, pure, fail, applied, continue, execute, query, commit, ◌>>=◌, ◌>>◌,
}
use stock_backend.Database.Agrees.{
  Agrees, Agrees-assoc, Agrees-statement, Agrees-begin, Agrees-commit, Agrees-execute-commit,
}
use stock_backend.Session.Store.{
  RefreshSession, TokenHash, Db, CreateParams, Error, refresh_token_reused, refresh_token_invalid,
  driver, create_refresh_session, find_session, find_family, session_with_email, consume_session,
  revoke_family, has_hash,
}
use stock_backend.Session.Repository.{
  Factory, replace, replayed, rotate_unconsumed, rotate_consumed, rotate_row, rotate_locked, rotate,
  revoke, revoke_row, revoke_locked, refresh_token_reuse_grace_period, lock_family_of,
  lock_refresh_session_family,
}
use stock_backend.Session.Rotation.{
  theft, judge, judge_row, verdict, inserted, exchange, answer, successor, revoked_tables,
}

abbrev conn : Db → ℕ → (ℕ → Option ℕ) → Conn Db
conn t n fault = record { durable = t; working = t; calls = n; fault = fault }

module _ (t : Db) (fault : ℕ → Option ℕ) where
  module _ {A : Type 0} (factory : Factory A) (now : ℕ) where
    inserted-Agrees :
        (n : ℕ) (s : RefreshSession) (next : CreateParams) (a : A)
        (r : Result Error (RefreshSession × Db))
        → Agrees driver
            (conn t n fault)
            (continue
              (λ _. do execute driver (consume_session s.id now next.id); commit driver; pure a)
              (applied (conn t n fault) r))
            (inserted s now next.id a t r)
    inserted-Agrees n s next a (err e) = inr (refl, refl)
    inserted-Agrees n s next a (ok (row, t')) =
        Agrees-execute-commit driver (record (conn t (suc n) fault) { working = t' })
          (consume_session s.id now next.id) (ok a)

    replace-Agrees :
        (n : ℕ) (s : RefreshSession) (r : Result Error (Option CreateParams × A))
        → Agrees driver (conn t n fault) (replace s now r (conn t n fault)) (exchange s now t r)
    unfolding replace
    replace-Agrees n s (err e) = inr (refl, refl)
    replace-Agrees n s (ok (none, a)) = inr (refl, refl)
    replace-Agrees n s (ok (some next, a)) =
        Agrees-statement driver (conn t n fault) (create_refresh_session (successor s next))
          (λ _. do execute driver (consume_session s.id now next.id); commit driver; pure a) _
          (inserted-Agrees n s next a (create_refresh_session (successor s next) t))

    theft-Agrees :
        (n : ℕ) (s : RefreshSession)
        → Agrees driver
            (conn t n fault)
            ((do
              execute driver (revoke_family s.family_id now)
              commit driver
              fail refresh_token_reused)
              (conn t n fault))
            (answer factory now t (theft s))
    unfolding answer
    theft-Agrees n s =
        Agrees-execute-commit driver (conn t n fault) (revoke_family s.family_id now)
          (err refresh_token_reused)

    replayed-Agrees :
        (n : ℕ) (s : RefreshSession) (email : String) (at : ℕ)
        → Agrees driver
            (conn t n fault)
            (replayed s at now (conn t n fault))
            (answer factory now t (judge_row now s email none (some at)))
    unfolding replayed judge_row answer
    replayed-Agrees n s email at =
        elim (Bool-cases (leb now (at + refresh_token_reuse_grace_period))) [
          | inl e ↦
              let e' : ltb (at + refresh_token_reuse_grace_period) now ≡ false = ground arith in
              rw (e, e') (inr (refl, refl))
          | inr e ↦
              let e' : ltb (at + refresh_token_reuse_grace_period) now ≡ true = ground arith in
              rw (e, e') (theft-Agrees n s)
        ]

    rotate_unconsumed-Agrees :
        (n : ℕ) (s : RefreshSession) (email : String)
        → Agrees driver
            (conn t n fault)
            (rotate_unconsumed factory s email now (conn t n fault))
            (answer factory now t (judge_row now s email none none))
    unfolding rotate_unconsumed judge_row answer
    rotate_unconsumed-Agrees n s email = elim (Bool-cases (leb s.expires_at now)) [
      | inl e ↦
          let e' : ltb now s.expires_at ≡ false = ground arith in rw (e, e') (inr (refl, refl))
      | inr e ↦
          let e' : ltb now s.expires_at ≡ true = ground arith in
          rw (e, e') (replace-Agrees n s (factory s email))
    ]

    rotate_found-Agrees :
        (n : ℕ) (s : RefreshSession) (email : String) (revoked_at consumed_at : Option ℕ)
        → Agrees driver
            (conn t n fault)
            ((if is_some revoked_at
                then fail refresh_token_invalid
                else rotate_consumed factory s email now consumed_at)
              (conn t n fault))
            (answer factory now t (judge_row now s email revoked_at consumed_at))
    unfolding rotate_consumed answer judge_row
    rotate_found-Agrees n s email (some at) consumed_at = inr (refl, refl)
    rotate_found-Agrees n s email none (some at) = replayed-Agrees n s email at
    rotate_found-Agrees n s email none none = rotate_unconsumed-Agrees n s email

    rotate_row-Agrees :
        (n : ℕ) (row : Option (RefreshSession × String))
        → Agrees driver
            (conn t n fault)
            (rotate_row factory now row (conn t n fault))
            (answer factory now t (judge now row))
    unfolding rotate_row answer judge
    rotate_row-Agrees n none = inr (refl, refl)
    rotate_row-Agrees n (some (s, email)) = rotate_found-Agrees n s email s.revoked_at s.consumed_at

    -- A token whose family is not found has no row, so its verdict is `unknown`.
    rotate_locked-Agrees :
        (n : ℕ) (h : TokenHash) (found : Option RefreshSession)
        → find_by (has_hash h) t.sessions ≡ found
        → Agrees driver
            (conn t n fault)
            ((do
              locked ← lock_family_of (Option.map (λ s. RefreshSession.family_id s) found)
              rotate_locked h now factory locked)
              (conn t n fault))
            (answer factory now t (verdict h now t))
    unfolding rotate_locked lock_family_of session_with_email judge answer
    rotate_locked-Agrees n h none e = rw e (inr (refl, refl))
    rotate_locked-Agrees n h (some s) e =
        Agrees-assoc driver (conn t n fault) (query driver (λ d. tt)) (λ _. pure true)
          (rotate_locked h now factory) (answer factory now t (verdict h now t))
          (Agrees-statement driver (conn t n fault) (λ d. ok (tt, d))
            (λ _. do row ← query driver (session_with_email h); rotate_row factory now row)
            (answer factory now t (verdict h now t))
            (Agrees-statement driver (conn t (suc n) fault) (λ d. ok (session_with_email h d, d))
              (rotate_row factory now) (answer factory now t (verdict h now t))
              (rotate_row-Agrees (suc (suc n)) (session_with_email h t))))

-- A presentation of a token answers by the verdict on its row and makes the verdict's tables durable,
-- or some call of the driver failed, the error is that call's, and the durable tables are as before.
pub rotate-Agrees :
    {A : Type 0} (h : TokenHash) (now : ℕ) (factory : Factory A) (c : Conn Db)
    → Agrees driver c
        (rotate h now (some factory) c)
        (answer factory now c.durable (verdict h now c.durable))
unfolding rotate find_family
rotate-Agrees {A} h now factory c =
    let spec : Result Error A × Db = answer factory now c.durable (verdict h now c.durable) in
    Agrees-begin driver c
      (do found ← lock_refresh_session_family h; rotate_locked h now factory found) spec
      (Agrees-assoc driver (conn c.durable (suc c.calls) c.fault) (query driver (find_family h))
        lock_family_of (rotate_locked h now factory) spec
        (Agrees-statement driver (conn c.durable (suc c.calls) c.fault)
          (λ d. ok (find_family h d, d))
          (λ family. do locked ← lock_family_of family; rotate_locked h now factory locked) spec
          (rotate_locked-Agrees c.durable c.fault factory now (suc (suc c.calls)) h _ refl)))

module _ (t : Db) (fault : ℕ → Option ℕ) where
  revoke_row-Agrees :
      (n now : ℕ) (row : Option RefreshSession)
      → Agrees driver
          (conn t n fault)
          (revoke_row now row (conn t n fault))
          (ok tt, revoked_tables now t row)
  unfolding revoke_row revoked_tables
  revoke_row-Agrees n now none = Agrees-commit driver (conn t n fault) (ok tt) t refl
  revoke_row-Agrees n now (some s) =
      Agrees-execute-commit driver (conn t n fault) (revoke_family s.family_id now) (ok tt)

  revoke_locked-Agrees :
      (n now : ℕ) (h : TokenHash) (found : Option RefreshSession)
      → find_by (has_hash h) t.sessions ≡ found
      → Agrees driver
          (conn t n fault)
          ((do
            locked ← lock_family_of (Option.map (λ s. RefreshSession.family_id s) found)
            revoke_locked h now locked)
            (conn t n fault))
          (ok tt, revoked_tables now t (find_session h t))
  unfolding revoke_locked lock_family_of find_session revoked_tables
  revoke_locked-Agrees n now h none e = rw e (inr (refl, refl))
  revoke_locked-Agrees n now h (some s) e =
      let spec : Result Error (Unit {0}) × Db = (ok tt, revoked_tables now t (find_session h t)) in
      Agrees-assoc driver (conn t n fault) (query driver (λ d. tt)) (λ _. pure true)
        (revoke_locked h now) spec
        (Agrees-statement driver (conn t n fault) (λ d. ok (tt, d))
          (λ _. do row ← query driver (find_session h); revoke_row now row) spec
          (Agrees-statement driver (conn t (suc n) fault) (λ d. ok (find_session h d, d))
            (revoke_row now) spec (revoke_row-Agrees (suc (suc n)) now (find_session h t))))

-- A revocation succeeds with the family of the token revoked, or with the tables unchanged where the
-- token is not stored; or some call failed, and the durable tables are as before.
pub revoke-Agrees :
    (h : TokenHash) (now : ℕ) (c : Conn Db)
    → Agrees driver c
        (revoke h now c)
        (ok tt, revoked_tables now c.durable (find_session h c.durable))
unfolding revoke find_family
revoke-Agrees h now c =
    let spec : Result Error (Unit {0}) × Db =
      (ok tt, revoked_tables now c.durable (find_session h c.durable)) in
    Agrees-begin driver c (do found ← lock_refresh_session_family h; revoke_locked h now found) spec
      (Agrees-assoc driver (conn c.durable (suc c.calls) c.fault) (query driver (find_family h))
        lock_family_of (revoke_locked h now) spec
        (Agrees-statement driver (conn c.durable (suc c.calls) c.fault)
          (λ d. ok (find_family h d, d))
          (λ family. do locked ← lock_family_of family; revoke_locked h now locked) spec
          (revoke_locked-Agrees c.durable c.fault (suc (suc c.calls)) now h _ refl)))

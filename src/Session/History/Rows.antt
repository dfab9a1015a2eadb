-- ===== src/Session/History/Rows.antt =====
-- A property of rows that consumption and revocation keep holds of every row after a request, if it
-- holds of the row that the request creates.
use stock_backend.Prelude.{
  ℕ, ◌≡◌, refl, inl, inr, Option, none, some, ◌∷◌, String, All, All-update_where, All-keep,
  Option-cases, string_eq,
}
use stock_backend.Database.{Result, ok, err, Conn, settled, statement, applied}
use stock_backend.Session.Store.{
  clear_successor, RefreshSession, TokenHash, Db, CreateParams, Error, create_refresh_session,
  consume_session, revoke_family, delete_expired, consume, revoke, new_row, has_id,
}
use stock_backend.Session.Repository
use stock_backend.Session.Repository.{Factory}
use stock_backend.Session.Rotation.{
  Verdict, theft, live, verdict, inserted, exchange, answer, successor, revoked_tables,
}
use stock_backend.Session.Rotation.Refinement.{rotate-Agrees, revoke-Agrees}
use stock_backend.Session.Invariant.{Agrees-durable}
use stock_backend.Session.Rows.{created}

abbrev pub Rows : (RefreshSession → Type 0) → Db → Type 0
Rows Q t = All Q t.sessions

module _ (Q : RefreshSession → Type 0)
    (consumes : (now : ℕ) (next : String) (s : RefreshSession) → Q s → Q (consume now next s))
    (revokes : (now : ℕ) (s : RefreshSession) → Q s → Q (revoke now s)) where
  revoke_family-Rows : (f : String) (now : ℕ) (t : Db) → Rows Q t → Rows Q (revoke_family f now t)
  unfolding revoke_family
  revoke_family-Rows f now t h =
      All-update_where Q _ (revoke now) (λ s _. revokes now s) t.sessions h

  module _ {A : Type 0} (now : ℕ) (t : Db) (h : Rows Q t) where
    inserted-Rows :
        (s : RefreshSession) (next : CreateParams) (a : A)
        → Q (new_row t (successor s next))
        → (r : Result Error (RefreshSession × Db)) → create_refresh_session (successor s next) t ≡ r
        → Rows Q (inserted s now next.id a t r).1
    unfolding consume_session
    inserted-Rows s next a q (err x) e = h
    inserted-Rows s next a q (ok (row, t')) e = rw (created (successor s next) t t' row e).2 (
        All-update_where Q (has_id s.id) (consume now next.id) (λ x _. consumes now next.id x)
          (new_row t (successor s next) ∷ t.sessions) (q, h))

    exchange-Rows :
        (s : RefreshSession) (r : Result Error (Option CreateParams × A))
        → ((next : CreateParams) (a : A) → r ≡ ok (some next, a) → Q (new_row t (successor s next)))
        → Rows Q (exchange s now t r).1
    exchange-Rows s (err x) q = h
    exchange-Rows s (ok (none, a)) q = h
    exchange-Rows s (ok (some next, a)) q = inserted-Rows s next a (q next a refl) _ refl

    answer-Rows :
        (factory : Factory A) (v : Verdict)
        → ((s : RefreshSession) (email : String) (next : CreateParams) (a : A)
            → v ≡ live s email
            → factory s email ≡ ok (some next, a)
            → Q (new_row t (successor s next)))
        → Rows Q (answer factory now t v).1
    unfolding answer
    answer-Rows factory (theft s) q = revoke_family-Rows s.family_id now t h
    answer-Rows factory (live s email) q =
        exchange-Rows s (factory s email) (λ next a. q s email next a refl)
    answer-Rows factory _ q = h

  pub rotate-Rows :
      {A : Type 0} (hash : TokenHash) (now : ℕ) (factory : Factory A) (c : Conn Db)
      → Rows Q c.durable
      → ((s : RefreshSession) (email : String) (next : CreateParams) (a : A)
          → verdict hash now c.durable ≡ live s email
          → factory s email ≡ ok (some next, a)
          → Q (new_row c.durable (successor s next)))
      → Rows Q (Repository.rotate hash now (some factory) c).1.durable
  rotate-Rows hash now factory c h q =
      Agrees-durable (Rows Q) c (Repository.rotate hash now (some factory) c) _
        (rotate-Agrees hash now factory c) h (answer-Rows now c.durable h factory _ q)

  revoked_tables-Rows :
      (now : ℕ) (t : Db) (row : Option RefreshSession)
      → Rows Q t
      → Rows Q (revoked_tables now t row)
  unfolding revoked_tables
  revoked_tables-Rows now t none h = h
  revoked_tables-Rows now t (some s) h = revoke_family-Rows s.family_id now t h

  pub revoke-Rows :
      (hash : TokenHash) (now : ℕ) (c : Conn Db)
      → Rows Q c.durable
      → Rows Q (Repository.revoke hash now c).1.durable
  revoke-Rows hash now c h =
      Agrees-durable (Rows Q) c (Repository.revoke hash now c) _ (revoke-Agrees hash now c) h
        (revoked_tables-Rows now c.durable _ h)

  pub delete_expired-Rows :
      (before : ℕ) (c : Conn Db)
      → ((s : RefreshSession) → Q s → Q (clear_successor s))
      → Rows Q c.durable
      → Rows Q (Repository.delete_expired_sessions before c).1.durable
  unfolding Repository.delete_expired_sessions delete_expired
  delete_expired-Rows before c clears h = elim (Option-cases (c.fault c.calls)) [
    | inl e ↦
        rw (e, statement)
          (All-update_where Q _ clear_successor (λ s _. clears s) _
            (All-keep Q _ c.durable.sessions h))
    | inr (x, e) ↦ rw (e, statement) h
  ]

  stored-Rows :
      (p : CreateParams) (c : Conn Db) (r : Result Error (RefreshSession × Db))
      → Rows Q c.durable
      → Q (new_row c.durable p)
      → create_refresh_session p c.durable ≡ r
      → Rows Q (settled (applied (record c { working = c.durable }) r)).1.durable
  stored-Rows p c (err x) h q e = h
  stored-Rows p c (ok (row, t')) h q e = rw (created p c.durable t' row e).2 (q, h)

  pub create-Rows :
      (p : CreateParams) (c : Conn Db)
      → Rows Q c.durable
      → Q (new_row c.durable p)
      → Rows Q (Repository.create (some p) c).1.durable
  unfolding Repository.create
  create-Rows p c h q = elim (Option-cases (c.fault c.calls)) [
    | inl e ↦ rw (e, statement) (stored-Rows p c (create_refresh_session p c.durable) h q refl)
    | inr (x, e) ↦ rw (e, statement) h
  ]

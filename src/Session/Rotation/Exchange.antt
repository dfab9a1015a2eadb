-- ===== src/Session/Rotation/Exchange.antt =====
-- What a successful exchange says of the tables before and after it.
use stock_backend.Prelude.{ℕ, ◌≡◌, refl, sym, ◌∙◌, inl, inr, Option, none, some, String, arith}
use stock_backend.Database.{Result, ok, err, Conn}
use stock_backend.Session.Store.{
  RefreshSession, TokenHash, Db, CreateParams, Error, create_refresh_session, consume_session,
}
use stock_backend.Session.Repository.{Factory, rotate}
use stock_backend.Session.Rotation.{
  Verdict, theft, live, unknown, dead, conflict, expired, verdict, inserted, exchange, answer,
  successor,
}
use stock_backend.Session.Rotation.Refinement.{rotate-Agrees}

-- The row was live, the factory made its successor, which was inserted, and the row was consumed.
pub record Exchanged {A : Type 0} (factory : Factory A) (now : ℕ) (t : Db) (v : Verdict) (a : A)
    (t' : Db) : Type 0 where
  pub current : RefreshSession
  pub email : String
  pub next : CreateParams
  pub row : RefreshSession
  pub grown : Db
  pub was_live : v ≡ live current email
  pub made : factory current email ≡ ok (some next, a)
  pub inserts : create_refresh_session (successor current next) t ≡ ok (row, grown)
  pub consumes : t' ≡ consume_session current.id now next.id grown

module _ {A : Type 0} (factory : Factory A) (now : ℕ) (t : Db) (a : A) where
  inserted-Exchanged :
      (s : RefreshSession) (email : String) (next : CreateParams) (b : A)
      → factory s email ≡ ok (some next, b)
      → (r : Result Error (RefreshSession × Db)) → create_refresh_session (successor s next) t ≡ r
      → (inserted s now next.id b t r).0 ≡ ok a
      → Exchanged factory now t (live s email) a (inserted s now next.id b t r).1
  inserted-Exchanged s email next b f (err x) c e = absurd (ground arith)
  inserted-Exchanged s email next b f (ok (row, t')) c e = record {
    current = s;
    email = email;
    next = next;
    row = row;
    grown = t';
    was_live = refl;
    made = ground arith;
    inserts = c;
    consumes = refl;
  }

  exchange-Exchanged :
      (s : RefreshSession) (email : String) (r : Result Error (Option CreateParams × A))
      → factory s email ≡ r
      → (exchange s now t r).0 ≡ ok a
      → Exchanged factory now t (live s email) a (exchange s now t r).1
  exchange-Exchanged s email (err x) f e = absurd (ground arith)
  exchange-Exchanged s email (ok (none, b)) f e = absurd (ground arith)
  exchange-Exchanged s email (ok (some next, b)) f e =
      inserted-Exchanged s email next b f (create_refresh_session (successor s next) t) refl e

  answer-Exchanged :
      (v : Verdict)
      → (answer factory now t v).0 ≡ ok a
      → Exchanged factory now t v a (answer factory now t v).1
  unfolding answer
  answer-Exchanged (live s email) e = exchange-Exchanged s email (factory s email) refl e
  answer-Exchanged (theft s) e = absurd (ground arith)
  answer-Exchanged unknown e = absurd (ground arith)
  answer-Exchanged dead e = absurd (ground arith)
  answer-Exchanged conflict e = absurd (ground arith)
  answer-Exchanged expired e = absurd (ground arith)

-- If a rotation succeeds with a value, the row of the presented token was live, the factory made the
-- next session with that value, the session was inserted with the owner and the family of the row, and
-- the durable tables are those with the row consumed by the next session.
pub rotate-Exchanged :
    {A : Type 0} (factory : Factory A) (now : ℕ) (a : A) (h : TokenHash) (c : Conn Db)
    → (rotate h now (some factory) c).0 ≡ ok a
    → Exchanged factory now c.durable
        (verdict h now c.durable)
        a
        (rotate h now (some factory) c).1.durable
rotate-Exchanged factory now a h c e = elim (rotate-Agrees h now factory c) [
  | inl (n, x, f, r, d) ↦ absurd (ground arith)
  | inr (r, d) ↦
      rw d (answer-Exchanged factory now c.durable a (verdict h now c.durable) (sym r ∙ e))
]

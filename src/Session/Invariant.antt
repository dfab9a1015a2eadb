-- ===== src/Session/Invariant.antt =====
-- The invariant of the session table (db/migrations, session_repository.go): the open sessions of a
-- family, and the digests; what each operation does to it.
use stock_backend.Prelude.{
  keep, List, ℕ, ◌≤◌, ◌≡◌, refl, inl, inr, true, not, ◌&&◌, Option, none, some, ◌∷◌, String, arith,
  find_by, is_none, string_eq, list_eq, beq_refl, Distinct, Distinct-keep, Distinct-update_where,
  absent, nat_eq, count_by-update_where-le, count_by-update_where-lt, count_by-keep-le,
}
use stock_backend.Database.{Result, ok, err, Conn}
use stock_backend.Database.Agrees.{Agrees}
use stock_backend.Session.Store.{
  clear_successor, replaced_by_one_of, RefreshSession, TokenHash, Db, CreateParams, Error,
  create_refresh_session, consume_session, revoke_family, delete_expired, has_hash, has_id,
  has_family, consume, revoke, is_expired, new_row, insertable, driver,
}
use stock_backend.Session.Repository
use stock_backend.Session.Repository.{Factory, rotate, refresh_token_reuse_grace_period}
use stock_backend.Session.Rotation.Refinement.{rotate-Agrees, revoke-Agrees}
use stock_backend.Session.Rotation.{
  Verdict, theft, live, verdict, inserted, exchange, answer, successor, revoked_tables,
}
use stock_backend.Session.Rows.{
  clear_closes, is_open, open_in, open_count, consume_closes, revoke_closes, consumed_closed,
  live_row, created, new_hash,
}

pub record IsValid (t : Db) : Type 0 where
  pub distinct : Distinct (λ s. RefreshSession.token_hash s) t.sessions
  pub one_open : (f : String) → open_count f t.sessions ≤ 1

-- A row that is inserted keeps the digests distinct.
pub new_row-Distinct :
    (t : Db) (p : CreateParams)
    → insertable t p ≡ true
    → Distinct (λ s. RefreshSession.token_hash s) t.sessions
    → Distinct (λ s. RefreshSession.token_hash s) (new_row t p ∷ t.sessions)
new_row-Distinct t p i d =
    (absent (λ s. RefreshSession.token_hash s) p.token_hash t.sessions (new_hash t p i), d)

module _ (h : TokenHash) (now : ℕ) (t : Db) (s : RefreshSession) where
  consume-IsValid :
      (p : CreateParams) (next : String)
      → insertable t (successor s p) ≡ true
      → find_by (has_hash h) t.sessions ≡ some s
      → is_open s ≡ true
      → IsValid t
      → IsValid (
          consume_session s.id now next
            (record t { sessions = new_row t (successor s p) ∷ t.sessions }))
  unfolding consume_session
  consume-IsValid p next i e o v = record {
    distinct =
        Distinct-update_where (λ s. RefreshSession.token_hash s) (has_id s.id) (consume now next)
          (λ x. refl) (new_row t (successor s p) ∷ t.sessions)
          (new_row-Distinct t (successor s p) i v.distinct);
    one_open = λ f. ground (
      arith,
      v.one_open f,
      string_eq.beq_iff s.family_id f,
      beq_refl s.id,
      count_by-update_where-le (open_in f) (consume now next) (consume_closes f now next)
          (has_id s.id) t.sessions,
      count_by-update_where-lt (open_in f) (consume now next) (consume_closes f now next)
          (has_id s.id) (has_hash h) t.sessions {s = s} e,
      consumed_closed f now next s,
    );
  }

revoke_family-IsValid :
    (g : String) (now : ℕ) (t : Db) → IsValid t → IsValid (revoke_family g now t)
unfolding revoke_family
revoke_family-IsValid g now t v = record {
  distinct =
      Distinct-update_where (λ s. RefreshSession.token_hash s) _ (revoke now) (λ s. refl) t.sessions
        v.distinct;
  one_open = λ f. omega (
    arith,
    v.one_open f,
    count_by-update_where-le (open_in f) (revoke now) (revoke_closes f now)
        (λ s. has_family g s && is_none (RefreshSession.revoked_at s)) t.sessions,
  );
}

revoked_tables-IsValid :
    (now : ℕ) (t : Db) (row : Option RefreshSession)
    → IsValid t
    → IsValid (revoked_tables now t row)
unfolding revoked_tables
revoked_tables-IsValid now t none v = v
revoked_tables-IsValid now t (some s) v = revoke_family-IsValid s.family_id now t v

pub delete_expired-IsValid : (before : ℕ) (t : Db) → IsValid t → IsValid (delete_expired before t).1
unfolding delete_expired
delete_expired-IsValid before t v =
    let left : List RefreshSession = keep (λ s. not (is_expired before s)) t.sessions in
    let gone : List RefreshSession = keep (is_expired before) t.sessions in
    record {
      distinct =
          Distinct-update_where (λ s. RefreshSession.token_hash s) (replaced_by_one_of gone)
            clear_successor (λ s. refl) left
            (Distinct-keep (λ s. RefreshSession.token_hash s) _ t.sessions v.distinct);
      one_open = λ f. omega (
        arith,
        v.one_open f,
        count_by-keep-le (open_in f) (λ s. not (is_expired before s)) t.sessions,
        count_by-update_where-le (open_in f) clear_successor (clear_closes f)
            (replaced_by_one_of gone) left,
      );
    }

module _ {A : Type 0} (now : ℕ) (t : Db) where
  inserted-IsValid :
      (s : RefreshSession) (h : TokenHash) (next : CreateParams) (a : A)
      → find_by (has_hash h) t.sessions ≡ some s
      → is_open s ≡ true
      → IsValid t
      → (r : Result Error (RefreshSession × Db)) → create_refresh_session (successor s next) t ≡ r
      → IsValid (inserted s now next.id a t r).1
  inserted-IsValid s h next a e o v (err x) c = v
  inserted-IsValid s h next a e o v (ok (row, t')) c =
      let made = created (successor s next) t t' row c in
      rw made.2 (consume-IsValid h now t s next next.id made.0 e o v)

  exchange-IsValid :
      (s : RefreshSession) (h : TokenHash)
      → find_by (has_hash h) t.sessions ≡ some s
      → is_open s ≡ true
      → IsValid t
      → (r : Result Error (Option CreateParams × A)) → IsValid (exchange s now t r).1
  exchange-IsValid s h e o v (err x) = v
  exchange-IsValid s h e o v (ok (none, a)) = v
  exchange-IsValid s h e o v (ok (some next, a)) =
      inserted-IsValid s h next a e o v (create_refresh_session (successor s next) t) refl

  answer-IsValid :
      (factory : Factory A) (h : TokenHash)
      → IsValid t
      → (verdict' : Verdict) → verdict h now t ≡ verdict'
      → IsValid (answer factory now t verdict').1
  unfolding answer
  answer-IsValid factory h v (theft s) e = revoke_family-IsValid s.family_id now t v
  answer-IsValid factory h v (live s email) e =
      let row = live_row h now t s email e in exchange-IsValid s h row.0 row.1 v (factory s email)
  answer-IsValid factory h v _ e = v

-- `Agrees` carries a predicate of the tables from the specification to the code.
pub Agrees-durable :
    {A : Type 0} (P : Db → Type 0) (c : Conn Db) (run : Result Error A × Conn Db)
    (spec : Result Error A × Db)
    → Agrees driver c run spec
    → P c.durable
    → P spec.1
    → P run.1.durable
Agrees-durable P c run spec (inl (n, x, f, r, d)) old new = rw d old
Agrees-durable P c run spec (inr (r, d)) old new = rw d new

-- A presentation of a token, whatever its outcome, leaves at most one open session in every family.
pub rotate-IsValid :
    {A : Type 0} (h : TokenHash) (now : ℕ) (factory : Factory A) (c : Conn Db)
    → IsValid c.durable
    → IsValid (rotate h now (some factory) c).1.durable
rotate-IsValid h now factory c v =
    Agrees-durable IsValid c (rotate h now (some factory) c) _ (rotate-Agrees h now factory c) v
      (answer-IsValid now c.durable factory h v _ refl)

pub revoke-IsValid :
    (h : TokenHash) (now : ℕ) (c : Conn Db)
    → IsValid c.durable
    → IsValid (Repository.revoke h now c).1.durable
revoke-IsValid h now c v =
    Agrees-durable IsValid c (Repository.revoke h now c) _ (revoke-Agrees h now c) v
      (revoked_tables-IsValid now c.durable _ v)

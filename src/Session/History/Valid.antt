-- ===== src/Session/History/Valid.antt =====
-- The invariant of the session table over whole histories.
use stock_backend.Prelude.{
  ℕ, ◌≡◌, refl, sym, subst, inl, inr, false, Option, some, List, [], ◌∷◌, String, arith, any, ◌==◌,
  Bool-cases, Option-cases, string_eq, count_by-none,
}
use stock_backend.Database.{Result, ok, err, Conn, applied, settled, statement}
use stock_backend.Session.Store.{
  RefreshSession, Db, CreateParams, Error, create_refresh_session, has_family,
}
use stock_backend.Session.Repository
use stock_backend.Session.Rows.{created, open_in}
use stock_backend.Session.Invariant.{
  IsValid, rotate-IsValid, revoke-IsValid, delete_expired-IsValid, new_row-Distinct,
}
use stock_backend.Session.Service
use stock_backend.Session.Service.{Deps, next_factory, prepare}
use stock_backend.Session.History.{Request, refreshes, issues, logs_out, cleans, connect, step, run}
use stock_backend.Session.History.Steps.{
  refresh-empty, refresh-rotate, refreshed-conn, revoke-empty, revoke-revoke, revoked-conn,
  cleaned-conn, issued-conn,
}

-- A login starts a family that the table does not have: its name is 32 random bytes.
abbrev pub StartsFamily : Deps → Db → Request → Type 0
StartsFamily d t (issues draw now user_id email fault) =
    (access raw : String) (p : CreateParams)
    → prepare d draw user_id email now ≡ ok (access, raw, p)
    → any (has_family p.family_id) t.sessions ≡ false
StartsFamily d t _ = Unit

abbrev pub AllStartFamilies : Deps → Db → List Request → Type 0
AllStartFamilies d t [] = Unit
AllStartFamilies d t (r ∷ rs) = StartsFamily d t r × AllStartFamilies d (step d t r) rs

new_family-IsValid :
    (p : CreateParams) (t t' : Db) (row : RefreshSession)
    → any (has_family p.family_id) t.sessions ≡ false
    → create_refresh_session p t ≡ ok (row, t')
    → IsValid t
    → IsValid t'
new_family-IsValid p t t' row fresh e v =
    let made = created p t t' row e in
    rw made.2 (record {
      distinct = new_row-Distinct t p made.0 v.distinct;
      one_open = λ f. ground (
        arith,
        v.one_open f,
        string_eq.beq_iff p.family_id f,
        count_by-none (open_in p.family_id) (has_family p.family_id) t.sessions
            (λ x h. ground arith) fresh,
      );
    })

stored-IsValid :
    (p : CreateParams) (c : Conn Db) (r : Result Error (RefreshSession × Db))
    → any (has_family p.family_id) c.durable.sessions ≡ false
    → create_refresh_session p c.durable ≡ r
    → IsValid c.durable
    → IsValid (settled (applied (record c { working = c.durable }) r)).1.durable
stored-IsValid p c (err x) fresh e v = v
stored-IsValid p c (ok (row, t')) fresh e v = new_family-IsValid p c.durable t' row fresh e v

create-IsValid :
    (p : CreateParams) (c : Conn Db)
    → any (has_family p.family_id) c.durable.sessions ≡ false
    → IsValid c.durable
    → IsValid (Repository.create (some p) c).1.durable
unfolding Repository.create
create-IsValid p c fresh v = elim (Option-cases (c.fault c.calls)) [
  | inl e ↦ rw (e, statement) (stored-IsValid p c (create_refresh_session p c.durable) fresh refl v)
  | inr (x, e) ↦ rw (e, statement) v
]

delete-IsValid :
    (before : ℕ) (c : Conn Db)
    → IsValid c.durable
    → IsValid (Repository.delete_expired_sessions before c).1.durable
unfolding Repository.delete_expired_sessions
delete-IsValid before c v = elim (Option-cases (c.fault c.calls)) [
  | inl e ↦ rw (e, statement) (delete_expired-IsValid before c.durable v)
  | inr (x, e) ↦ rw (e, statement) v
]

abbrev DurableIsValid : {A : Type 0} → Result Error A × Conn Db → Type 0
DurableIsValid run = IsValid run.1.durable

issue_prepared-IsValid :
    (t : Db) (fault : ℕ → Option ℕ) (r : Result Error (String × String × CreateParams))
    → ((access raw : String) (p : CreateParams)
        → r ≡ ok (access, raw, p)
        → any (has_family p.family_id) t.sessions ≡ false)
    → IsValid t
    → IsValid (Service.issue_prepared r (connect t fault)).1.durable
unfolding Service.issue_prepared
issue_prepared-IsValid t fault (err e) fresh v = v
issue_prepared-IsValid t fault (ok (access, raw, p)) fresh v =
    rw issued-conn (create-IsValid p (connect t fault) (fresh access raw p refl) v)

-- One request, whatever calls of the driver fail, keeps the digests distinct and leaves at most one
-- session of each family open.
pub step-IsValid :
    (d : Deps) (t : Db) (r : Request) → IsValid t → StartsFamily d t r → IsValid (step d t r)
unfolding step Service.cleanup_expired Service.issue
step-IsValid d t (refreshes draw now token fault) v _ = elim (Bool-cases (token == "")) [
  | inl e ↦ subst DurableIsValid (sym (refresh-empty d draw now token (connect t fault) e)) v
  | inr e ↦ subst DurableIsValid (sym (refresh-rotate d draw now token (connect t fault) e)) (
      rw refreshed-conn (
        rotate-IsValid (d.hash_refresh_token token) now (next_factory d draw now) (connect t fault)
          v))
]
step-IsValid d t (issues draw now user_id email fault) v fresh =
    issue_prepared-IsValid t fault (prepare d draw user_id email now) fresh v
step-IsValid d t (logs_out now token fault) v _ = elim (Bool-cases (token == "")) [
  | inl e ↦ subst DurableIsValid (sym (revoke-empty d now token (connect t fault) e)) v
  | inr e ↦
      subst DurableIsValid (sym (revoke-revoke d now token (connect t fault) e))
        (rw revoked-conn (revoke-IsValid (d.hash_refresh_token token) now (connect t fault) v))
]
step-IsValid d t (cleans now fault) v _ =
    subst (λ (c : Conn Db). IsValid c.durable)
      (sym (cleaned-conn (Repository.delete_expired_sessions now (connect t fault))))
      (delete-IsValid now (connect t fault) v)

-- From a table with distinct digests and at most one open session in each family, every history of
-- refreshes, logins into new families, logouts and cleanups ends in such a table.
pub run-IsValid :
    (d : Deps) (t : Db) (rs : List Request)
    → IsValid t
    → AllStartFamilies d t rs
    → IsValid (run d t rs)
unfolding run
run-IsValid d t [] v _ = v
run-IsValid d t (r ∷ rs) v fresh =
    run-IsValid d (step d t r) rs (step-IsValid d t r v fresh.0) fresh.1

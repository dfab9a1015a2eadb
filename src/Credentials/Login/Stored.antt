-- ===== src/Credentials/Login/Stored.antt =====
-- The rows behind `create` and `find_by_email`.
use stock_backend.Prelude.{
  ℕ, ◌≡◌, refl, Option, none, some, String, arith, any, ◌||◌, ◌∷◌, string_eq, nat_eq, Bool-cases,
  Option-cases, inl, inr,
}
use stock_backend.Database.{Result, ok, err, Conn, inspect, settled, applied, statement}
use stock_backend.Session.Store.{User, Db}
use stock_backend.Credentials.Users.{
  Error, find_user_by_email, find_by_email, or_not_found, create, created, create_user, new_user,
  has_email, has_user_id,
}

-- The user that a row becomes.
created_user :
    (id : ℕ) (email : String) (hash : Option String) (t t' : Db) (u : User)
    → create_user id email hash t ≡ ok (u, t')
    → (u ≡ new_user id email hash) × (t'.users ≡ new_user id email hash ∷ t.users)
unfolding create_user
created_user id email hash t t' u e =
    elim (Bool-cases (any (has_user_id id) t.users || any (has_email email) t.users)) [
      | inl taken ↦ absurd (ground arith)
      | inr free ↦ ground arith
    ]

create-cases :
    (id : ℕ) (email : String) (hash : Option String) (c : Conn Db) (r : Result Error (User × Db))
    (u : User)
    → create_user id email hash c.durable ≡ r
    → (inspect created (settled (applied (record c { working = c.durable }) r))).0 ≡ ok u
    → (u ≡ new_user id email hash)
      × ((inspect created (settled (applied (record c { working = c.durable }) r))).1.durable.users
          ≡ new_user id email hash ∷ c.durable.users)
unfolding created
create-cases id email hash c (ok (v, t)) u e h =
    let made = created_user id email hash c.durable t v e in (ground arith, made.1)
create-cases id email hash c (err x) u e h = absurd (ground arith)

pub create-ok :
    (id : ℕ) (email : String) (hash : Option String) (c : Conn Db) (u : User)
    → (create id (some (email, hash)) c).0 ≡ ok u
    → (u ≡ new_user id email hash)
      × ((create id (some (email, hash)) c).1.durable.users
          ≡ new_user id email hash ∷ c.durable.users)
unfolding create created
create-ok id email hash c u h = elim (Option-cases (c.fault c.calls)) [
  | inl e ↦ rw (e, statement) (create-cases id email hash c _ u refl (rw (e, statement) at h))
  | inr (x, e) ↦ absurd (ground (arith, rw (e, statement) at h))
]

pub found_user :
    (email : String) (c : Conn Db) (u : User)
    → c.fault c.calls ≡ none
    → find_user_by_email email c.durable ≡ some u
    → (find_by_email email c).0 ≡ ok u
unfolding find_by_email or_not_found
found_user email c u works e = rw (works, statement, e) refl

or_not_found-ok :
    (o : Option User) (c : Conn Db) (u : User) → (or_not_found (ok o) c).0 ≡ ok u → o ≡ some u
unfolding or_not_found
or_not_found-ok none c u h = absurd (ground arith)
or_not_found-ok (some v) c u h = ground arith

pub find_by_email-ok :
    (email : String) (c : Conn Db) (u : User)
    → (find_by_email email c).0 ≡ ok u
    → find_user_by_email email c.durable ≡ some u
unfolding find_by_email or_not_found
find_by_email-ok email c u h = elim (Option-cases (c.fault c.calls)) [
  | inl e ↦ or_not_found-ok (find_user_by_email email c.durable) _ u (rw (e, statement) at h)
  | inr (x, e) ↦ absurd (ground (arith, rw (e, statement) at h))
]

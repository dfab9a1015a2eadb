-- ===== src/Credentials/Login/RoundTrip.antt =====
-- `Signup` followed by `Login` (credentials.go).
use stock_backend.Prelude.{
  ℕ, ◌≡◌, refl, sym, ◌∙◌, ap, true, false, Option, none, some, List, String, arith, ltb, ◌∷◌,
  string_eq, nat_eq, beq_refl, Bool-cases, inl, inr,
}
use stock_backend.Database.{Result, ok, err, Conn, inspect}
use stock_backend.Session.Store.{User, Db}
use stock_backend.Session.Service
use stock_backend.Session.Service.{Deps, Draw, TokenPair}
use stock_backend.Credentials.Users.{Error, find_user_by_email, find_by_email, create, new_user}
use stock_backend.Credentials.Login.{
  Passwords, max_password_length, pepper_password, valid_password, signed_up, sign_up_hashed,
  signup, session_issued, checked, found, login,
}
use stock_backend.Credentials.Login.Stored.{create-ok, found_user}

module _ (p : Passwords) where
  signed_up-ok :
      (run : Result Error User × Conn Db) (id : ℕ)
      → (inspect (signed_up p) run).0 ≡ ok id
      → (u : User) × (run.0 ≡ ok u) × (u.id ≡ id) × ((inspect (signed_up p) run).1 ≡ run.1)
  unfolding signed_up
  signed_up-ok (ok u, c) id h = (u, refl, ground arith, refl)
  signed_up-ok (err e, c) id h = absurd (ground arith)

  -- The row that a signup leaves.
  record SignedUp (id id' : ℕ) (email password : String) (before after : Db) : Type 0 where
    pub hash : String
    pub short : ltb max_password_length (p.byte_length password) ≡ false
    pub made : p.generate_from_password (pepper_password p password) ≡ some hash
    pub same_id : id ≡ id'
    pub stored : after.users ≡ new_user id (p.normalize_email email) (some hash) ∷ before.users

  valid_short :
      (password : String)
      → valid_password p password ≡ true
      → ltb max_password_length (p.byte_length password) ≡ false
  unfolding valid_password
  valid_short password h = ground arith

  hashed-SignedUp :
      (id id' : ℕ) (email password : String) (c : Conn Db) (o : Option String)
      → valid_password p password ≡ true
      → p.generate_from_password (pepper_password p password) ≡ o
      → (sign_up_hashed p id (p.normalize_email email) o c).0 ≡ ok id'
      → SignedUp id id' email password c.durable
          (sign_up_hashed p id (p.normalize_email email) o c).1.durable
  unfolding sign_up_hashed
  hashed-SignedUp id id' email password c none valid g h = absurd (ground arith)
  hashed-SignedUp id id' email password c (some hash) valid g h =
      let s = signed_up-ok (create id (some (p.normalize_email email, some hash)) c) id' h in
      let made = create-ok id (p.normalize_email email) (some hash) c s.0 s.1 in
      record {
        hash = hash;
        short = valid_short password valid;
        made = g;
        same_id = sym (ap (λ (u : User). u.id) made.0) ∙ s.2;
        stored = ap (λ (d : Conn Db). d.durable.users) s.3 ∙ made.1;
      }

  signup-SignedUp :
      (id id' : ℕ) (email password : String) (c : Conn Db)
      → (signup p id email password c).0 ≡ ok id'
      → SignedUp id id' email password c.durable (signup p id email password c).1.durable
  unfolding signup
  signup-SignedUp id id' email password c h = elim (Bool-cases (valid_password p password)) [
    | inr bad ↦ absurd (ground (arith, rw bad at h))
    | inl good ↦ rw good (hashed-SignedUp id id' email password c _ good refl (rw good at h))
  ]

module _ (p : Passwords) (d : Deps) (draw : Draw) (now : ℕ) where
  -- The session that a login opens for a user.
  abbrev pub opened : User → Conn Db → Result Error TokenPair × Conn Db
  opened u c = inspect (session_issued p d draw now) (Service.issue d draw now u.id u.email c)

  found_hit :
      (run : Result Error User × Conn Db) (u : User) (hash password : String)
      → run.0 ≡ ok u
      → u.password_hash ≡ some hash
      → p.compare_hash hash password ≡ true
      → inspect (found p d draw now password) run ≡ opened u run.1
  unfolding found checked
  found_hit (r, c) u hash password one has matches = rw (one, has, matches) refl

  login_short :
      (email password : String) (c : Conn Db)
      → ltb max_password_length (p.byte_length password) ≡ false
      → login p d draw now email password c
        ≡ inspect
            (found p d draw now (pepper_password p password))
            (find_by_email (p.normalize_email email) c)
  unfolding login
  login_short email password c short = rw short refl

  find_new :
      (id : ℕ) (email : String) (hash : Option String) (t : Db) (us : List User)
      → t.users ≡ new_user id email hash ∷ us
      → find_user_by_email email t ≡ some (new_user id email hash)
  unfolding find_user_by_email
  find_new id email hash t us e = rw (e, beq_refl email) refl

  -- After a signup that succeeded, a login with the same email and password, whose look-up reaches the
  -- server, is the opening of a session for the new user: no other check stands in between. The one
  -- thing asked of bcrypt is that a hash that it made of a text matches the text.
  pub new_user_logs_in :
      (id id' : ℕ) (email password : String) (c later : Conn Db)
      → ((x hash : String) → p.generate_from_password x ≡ some hash → p.compare_hash hash x ≡ true)
      → (signup p id email password c).0 ≡ ok id'
      → later.durable ≡ (signup p id email password c).1.durable
      → later.fault later.calls ≡ none
      → (u : User) × (u.id ≡ id')
        × (u.email ≡ p.normalize_email email)
        × (login p d draw now email password later
            ≡ opened u (find_by_email (p.normalize_email email) later).1)
  new_user_logs_in id id' email password c later matches first same works =
      let s = signup-SignedUp p id id' email password c first in
      let u : User = new_user id (p.normalize_email email) (some s.hash) in
      let stored =
        find_new id (p.normalize_email email) (some s.hash) later.durable c.durable.users
          (ap (λ (t : Db). t.users) same ∙ s.stored) in
      (
        u,
        s.same_id,
        refl,
        login_short email password later s.short
            ∙ found_hit (find_by_email (p.normalize_email email) later) u s.hash
                (pepper_password p password)
                (found_user (p.normalize_email email) later u works stored) refl
                (matches (pepper_password p password) s.hash s.made),
      )

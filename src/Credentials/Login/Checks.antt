-- ===== src/Credentials/Login/Checks.antt =====
-- `Login` (credentials.go) read backwards, from its success.
use stock_backend.Prelude.{
  ℕ, ◌≡◌, refl, true, Option, none, some, String, arith, ltb, string_eq, nat_eq, Bool-cases, inl,
  inr,
}
use stock_backend.Database.{Result, ok, err, Conn, inspect}
use stock_backend.Session.Store.{User, Db}
use stock_backend.Session.Service.{Deps, Draw, TokenPair}
use stock_backend.Credentials.Users.{Error, find_user_by_email, find_by_email}
use stock_backend.Credentials.Login.{
  Passwords, max_password_length, pepper_password, checked, found, login,
}
use stock_backend.Credentials.Login.Stored.{find_by_email-ok}
use stock_backend.Credentials.Login.RoundTrip.{opened}

module _ (p : Passwords) (d : Deps) (draw : Draw) (now : ℕ) where
  -- What a login that succeeds has shown.
  pub record LoggedIn (email password : String) (c : Conn Db) (pair : TokenPair) : Type 0 where
    pub user : User
    pub hash : String
    pub stored : find_user_by_email (p.normalize_email email) c.durable ≡ some user
    pub has_hash : user.password_hash ≡ some hash
    pub matches : p.compare_hash hash (pepper_password p password) ≡ true
    pub issues :
        (opened p d draw now user (find_by_email (p.normalize_email email) c).1).0 ≡ ok pair

  checked-ok :
      (u : User) (o : Option String) (password : String) (c : Conn Db) (pair : TokenPair)
      → (checked p d draw now u o password c).0 ≡ ok pair
      → (hash : String) × (o ≡ some hash)
        × (p.compare_hash hash password ≡ true)
        × ((opened p d draw now u c).0 ≡ ok pair)
  unfolding checked
  checked-ok u none password c pair h = absurd (ground arith)
  checked-ok u (some hash) password c pair h = elim (Bool-cases (p.compare_hash hash password)) [
    | inl y ↦ (hash, refl, y, rw y at h)
    | inr n ↦ absurd (ground (arith, rw n at h))
  ]

  found-ok :
      (run : Result Error User × Conn Db) (password : String) (pair : TokenPair)
      → (inspect (found p d draw now password) run).0 ≡ ok pair
      → (u : User) × (run.0 ≡ ok u)
        × ((checked p d draw now u u.password_hash password run.1).0 ≡ ok pair)
  unfolding found
  found-ok (ok u, c) password pair h = (u, refl, h)
  found-ok (err e, c) password pair h = absurd (ground arith)

  -- A login that succeeds found a user under the normalized email who has a password hash, the hash
  -- matches the password, and the pair is that of a session opened p d draw now for this user. So a user without a
  -- password is never logged in, whatever the dummy hash is.
  pub login-LoggedIn :
      (email password : String) (c : Conn Db) (pair : TokenPair)
      → (login p d draw now email password c).0 ≡ ok pair
      → LoggedIn email password c pair
  unfolding login
  login-LoggedIn email password c pair h =
      elim (Bool-cases (ltb max_password_length (p.byte_length password))) [
        | inl long ↦ absurd (ground (arith, rw long at h))
        | inr short ↦
            let f =
              found-ok (find_by_email (p.normalize_email email) c) (pepper_password p password) pair
                (rw short at h) in
            let k =
              checked-ok f.0 (User.password_hash f.0) (pepper_password p password) _ pair f.2 in
            record {
              user = f.0;
              hash = k.0;
              stored = find_by_email-ok (p.normalize_email email) c f.0 f.1;
              has_hash = k.1;
              matches = k.2;
              issues = k.3;
            }
      ]

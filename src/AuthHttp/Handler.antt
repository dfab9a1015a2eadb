-- ===== src/AuthHttp/Handler.antt =====
-- The handlers of internal/feature/auth/authhttp/handler.go. `DecodeJSON` answers nothing for a body
-- that is refused; the CSRF token is nothing where the random source fails. The limiter works on the
-- sorted set of the request's email.
use stock_backend.Prelude.{
  ℕ, ◌/◌, ◌*◌, ◌^◌, Bool, Option, none, some, List, [], ◌∷◌, String, ◌==◌, if◌then◌else◌, string_eq,
}
use stock_backend.Database.{Result, ok, err, Conn}
use stock_backend.Session.Store
use stock_backend.Session.Store.{
  Db, session_unavailable, refresh_token_invalid, refresh_token_expired, refresh_token_reused,
  refresh_token_conflict,
}
use stock_backend.Session.Service
use stock_backend.Session.Service.{Deps, Draw, TokenPair}
use stock_backend.Credentials.Users
use stock_backend.Credentials.Users.{UserExec, invalid_credentials, invalid_password, session}
use stock_backend.Credentials.Login
use stock_backend.Credentials.Login.{Passwords}
use stock_backend.RateLimit.{SortedSet, Trip, Decision, fail_closed, allow_request}
use stock_backend.Transport.Request.{Request, find_cookie}
use stock_backend.Transport.Jwt.{Blacklist, Library, revoke_request_token}
use stock_backend.AuthHttp.Cookies.{
  Cookie, SessionCookieConfig, clear_session_cookies, set_session_cookies_with_csrf,
}

pub data Body : Type 0 where
  error message : String → Body

pub record Response : Type 0 where
  pub status : ℕ
  pub retry_after : Option ℕ
  pub set_cookies : List Cookie
  pub body : Body

abbrev pub plain : ℕ → Body → Response
plain status body = record { status = status; retry_after = none; set_cookies = []; body = body }

abbrev pub with_cookies : List Cookie → Response → Response
with_cookies cookies r = record r { set_cookies = cookies }

abbrev pub internal_error : Response
internal_error = plain 500 (error "internal error")

abbrev pub service_unavailable : Response
service_unavailable = plain 503 (error "service temporarily unavailable")

unfoldable pub refresh_token_of : Request → Option String
refresh_token_of r = elim (find_cookie "refresh_token" r.cookies) [
  | none ↦ none
  | some token ↦ if token == "" then none else some token
]

module _ (cfg : SessionCookieConfig) (now : ℕ) where
  abbrev pub signed_in : String → TokenPair → Response
  signed_in csrf_token pair =
      with_cookies (set_session_cookies_with_csrf now pair csrf_token cfg)
        (plain 200 (message "ok"))

  -- The answer to an error of `Refresh`.
  unfoldable pub refresh_refused : Store.Error → Response
  refresh_refused refresh_token_conflict =
      record (plain 409 (error "refresh already in progress")) { retry_after = some 1 }
  refresh_refused refresh_token_invalid =
      with_cookies (clear_session_cookies now cfg) (plain 401 (error "invalid refresh token"))
  refresh_refused refresh_token_expired =
      with_cookies (clear_session_cookies now cfg) (plain 401 (error "invalid refresh token"))
  refresh_refused refresh_token_reused =
      with_cookies (clear_session_cookies now cfg) (plain 401 (error "invalid refresh token"))
  refresh_refused session_unavailable = service_unavailable
  refresh_refused _ = internal_error

  unfoldable pub refresh_answer : String → Result Store.Error TokenPair → Response
  unfolding refresh_refused
  refresh_answer csrf_token (ok pair) = signed_in csrf_token pair
  refresh_answer csrf_token (err e) = refresh_refused e

  abbrev pub answered :
      {A : Type 0}
      → (Result Store.Error A → Response)
      → Result Store.Error A × Conn Db
      → Response × Conn Db
  answered f (r, c) = (f r, c)

  module _ (d : Deps) where
    -- The CSRF token is there before the session is exchanged.
    unfoldable pub refresh_with : Draw → Option String → String → Conn Db → Response × Conn Db
    unfolding refresh_answer
    refresh_with draw none token c = (internal_error, c)
    refresh_with draw (some csrf_token) token c =
        answered (refresh_answer csrf_token) (Service.refresh d draw now token c)

    -- `Refresh`
    unfoldable pub refresh : Draw → Option String → Request → Conn Db → Response × Conn Db
    unfolding refresh_with refresh_token_of
    refresh draw csrf_token r c = elim (refresh_token_of r) [
      | none ↦ (plain 401 (error "invalid refresh token"), c)
      | some token ↦ refresh_with draw csrf_token token c
    ]

    unfoldable pub logout_answer : Result Store.Error (Unit {0}) → Response
    logout_answer (ok u) = with_cookies (clear_session_cookies now cfg) (plain 200 (message "ok"))
    logout_answer (err session_unavailable) =
        with_cookies (clear_session_cookies now cfg) service_unavailable
    logout_answer (err e) = with_cookies (clear_session_cookies now cfg) internal_error

    abbrev pub cookie_or_empty : Option String → String
    cookie_or_empty none = ""
    cookie_or_empty (some token) = token

    -- `Logout`: a blacklist that cannot be written is logged only.
    unfoldable pub logout :
        Library → String → Bool → Request → Blacklist → Conn Db → Response × (Blacklist × Conn Db)
    unfolding logout_answer
    logout l secret fails r blacklist c =
        let (answer, c') =
          answered logout_answer
            (Service.revoke d now (cookie_or_empty (find_cookie "refresh_token" r.cookies)) c) in
        (answer, ((revoke_request_token l secret blacklist fails now r).0, c'))

  -- 5 attempts in 15 minutes for an email.
  abbrev pub login_email_limit : ℕ
  login_email_limit = 5

  abbrev pub login_email_window : ℕ
  login_email_window = 15 * 60 * 10 ^ 9

  unfoldable pub login_refused : Users.Error → Response
  login_refused invalid_credentials = plain 401 (error "invalid email or password")
  login_refused (session session_unavailable) = service_unavailable
  login_refused e = internal_error

  unfoldable pub login_answer : String → Result Users.Error TokenPair → Response
  unfolding login_refused
  login_answer csrf_token (ok pair) = signed_in csrf_token pair
  login_answer csrf_token (err e) = login_refused e

  abbrev pub logged_in : String → Result Users.Error TokenPair × Conn Db → Response × Conn Db
  logged_in csrf_token (r, c) = (login_answer csrf_token r, c)

  unfoldable pub limited : Decision → Response
  limited decision =
      if decision.service_unavailable
      then service_unavailable
      else record (plain 429 (error "too many requests")) {
        retry_after = some (decision.retry_after / 10 ^ 9);
      }

  module _ (p : Passwords) (d : Deps) where
    unfoldable pub login_with :
        Draw → Option String → String → String → Conn Db → Response × Conn Db
    unfolding login_answer
    login_with draw none email password c = (internal_error, c)
    login_with draw (some csrf_token) email password c =
        logged_in csrf_token (Login.login p d draw now email password c)

    abbrev pub allowed :
        Draw
        → Option String
        → String
        → String
        → Conn Db
        → Decision × Option SortedSet
        → Response × (Option SortedSet × Conn Db)
    allowed draw csrf_token email password c (decision, z) =
        let (answer, c') = login_with draw csrf_token email password c in
        if decision.allowed then (answer, (z, c')) else (limited decision, (z, c))

    -- `Login`; the set is that of the normal form of the email, with the times as doubles.
    unfoldable pub login :
        (ℕ → ℕ)
        → Draw
        → Option String
        → ℕ
        → Trip
        → Option (String × String)
        → Option SortedSet
        → Conn Db
        → Response × (Option SortedSet × Conn Db)
    unfolding login_with limited
    login double draw csrf_token member trip none z c =
        (plain 400 (error "invalid request"), (z, c))
    login double draw csrf_token member trip (some (email, password)) z c =
        allowed draw csrf_token email password c
          (allow_request double login_email_limit login_email_window fail_closed now member trip z)

  unfoldable pub run_hooks : List (ℕ → UserExec (Unit {0})) → ℕ → Conn Db → Conn Db
  run_hooks [] id c = c
  run_hooks (hook ∷ hooks) id c = run_hooks hooks id (hook id c).1

  unfoldable pub signup_answer :
      List (ℕ → UserExec (Unit {0})) → Result Users.Error ℕ → Conn Db → Response × Conn Db
  unfolding run_hooks
  signup_answer hooks (ok id) c = (plain 201 (message "ok"), run_hooks hooks id c)
  signup_answer hooks (err invalid_password) c = (plain 400 (error "invalid request"), c)
  signup_answer hooks (err e) c = (plain 409 (error "signup failed"), c)

  -- `Signup`
  unfoldable pub signup :
      Passwords
      → List (ℕ → UserExec (Unit {0}))
      → ℕ
      → Option (String × String)
      → Conn Db
      → Response × Conn Db
  unfolding signup_answer
  signup p hooks id none c = (plain 400 (error "invalid request"), c)
  signup p hooks id (some (email, password)) c =
      let (r, c') = Login.signup p id email password c in signup_answer hooks r c'

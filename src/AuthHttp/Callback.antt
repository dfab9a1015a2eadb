-- ===== src/AuthHttp/Callback.antt =====
-- Whom `Callback` of internal/feature/auth/authhttp/oauth.go signs in.
use stock_backend.Prelude.{
  ℕ, ◌≡◌, ◌≢◌, refl, ap, ◌⊎◌, inl, inr, true, ◌&&◌, ◌||◌, Option, none, some, ◌∷◌, String, ◌==◌,
  All, Bool-cases, string_eq,
}
use stock_backend.Database.{Result, ok, err}
use stock_backend.Session.Service.{Draw, TokenPair}
use stock_backend.Transport.Request.{Request, find_cookie}
use stock_backend.Oauth.Store.{Tables, Error}
use stock_backend.Oauth.Flow.{Usecase, World, handle_callback}
use stock_backend.AuthHttp.Cookies.{SessionCookieConfig, set_session_cookies_with_csrf}
use stock_backend.AuthHttp.Refresh.{IsDeletion}
use stock_backend.AuthHttp.OauthHandler.{
  OauthResponse, ErrorCode, frontend, login_error, state_cookie_deleted, callback_answer,
  callback_code, answered_in, state_matches, callback_with, callback, redirect_with_error,
}

matches_found : (o : Option String) (state : String) → state_matches o state ≡ true → o ≡ some state
unfolding state_matches
matches_found none state h = cc
matches_found (some value) state h = ap some ((string_eq.beq_iff value state).0 h)

module _ (cfg : SessionCookieConfig) (now : ℕ) (uc : Usecase) (draw : Draw) (id : ℕ)
    (meanwhile : Tables → Tables) (csrf : Option String)
    (provider code state provider_error : String) (r : Request) (w : World) where
  abbrev run : OauthResponse × World
  run = callback cfg now uc draw id meanwhile csrf provider code state provider_error r w

  abbrev pub SignedIn : OauthResponse × World → Type 0
  SignedIn answer =
      (csrf_token : String) × (pair : TokenPair) × (csrf ≡ some csrf_token)
      × (handle_callback uc draw now id meanwhile provider code state w ≡ (ok pair, answer.1))
      × (answer.0.target ≡ frontend)
      × (answer.0.set_cookies
          ≡ state_cookie_deleted cfg now ∷ set_session_cookies_with_csrf now pair csrf_token cfg)

  abbrev pub TurnedAway : OauthResponse → Type 0
  TurnedAway answer =
      ((e : ErrorCode) × (answer.target ≡ login_error e)) × All IsDeletion answer.set_cookies

  answered_outcome :
      (csrf_token : String) (service : Result Error TokenPair × World)
      → csrf ≡ some csrf_token
      → handle_callback uc draw now id meanwhile provider code state w ≡ service
      → SignedIn (answered_in cfg now csrf_token service)
        ⊎ TurnedAway (answered_in cfg now csrf_token service).0
  unfolding callback_answer redirect_with_error
  answered_outcome csrf_token (ok pair, w') e h = inl (csrf_token, pair, e, h, refl, refl)
  answered_outcome csrf_token (err x, w') e h = inr ((callback_code x, refl), ((refl, refl), tt))

  with_csrf :
      (o : Option String)
      → csrf ≡ o
      → SignedIn (callback_with cfg now uc draw id meanwhile o provider code state w)
        ⊎ TurnedAway (callback_with cfg now uc draw id meanwhile o provider code state w).0
  unfolding callback_with redirect_with_error
  with_csrf none e = inr ((_, refl), ((refl, refl), tt))
  with_csrf (some csrf_token) e =
      answered_outcome csrf_token (handle_callback uc draw now id meanwhile provider code state w) e
        refl

  -- Either the browser's state cookie has the state of the callback, the login was completed and the
  -- answer signs its user in; or the answer goes to the login page with an error, sets nothing but
  -- deletions, and where the cookie does not have the state nothing happened.
  pub callback_outcome :
      ((find_cookie "oauth_state" r.cookies ≡ some state) × SignedIn run)
      ⊎ TurnedAway run.0 × (find_cookie "oauth_state" r.cookies ≢ some state → run.1 ≡ w)
  unfolding callback callback_with redirect_with_error
  callback_outcome = elim (Bool-cases (state == "" || (code == "" && provider_error == ""))) [
    | inl e ↦ inr (rw (callback, e) (((_, refl), ((refl, refl), tt)), λ _. refl))
    | inr e ↦ elim (Bool-cases (state_matches (find_cookie "oauth_state" r.cookies) state)) [
      | inr f ↦ inr (rw (callback, e, f) (((_, refl), ((refl, refl), tt)), λ _. refl))
      | inl f ↦
          let found : find_cookie "oauth_state" r.cookies ≡ some state =
            matches_found (find_cookie "oauth_state" r.cookies) state f in
          elim (Bool-cases (provider_error == "")) [
            | inr g ↦
                inr (
                  rw (callback, e, f, g) (((_, refl), ((refl, refl), tt)), λ no. absurd (no found)))
            | inl g ↦ elim (with_csrf csrf refl) [
              | inl signed ↦ inl (found, rw (callback, e, f, g) signed)
              | inr away ↦ inr (rw (callback, e, f, g) away, λ no. absurd (no found))
            ]
          ]
    ]
  ]

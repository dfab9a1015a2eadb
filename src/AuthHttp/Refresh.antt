-- ===== src/AuthHttp/Refresh.antt =====
-- What `Refresh` of internal/feature/auth/authhttp/handler.go sends with each answer.
use stock_backend.Prelude.{
  ℕ, ◌≡◌, ◌≢◌, refl, sym, ◌∙◌, ◌⊎◌, inl, inr, Option, none, some, String, ◌==◌, All, Bool-cases,
  Option-cases, string_eq, negsuc, arith,
}
use stock_backend.Database.{Result, ok, err, Conn}
use stock_backend.Session.Store
use stock_backend.Session.Store.{
  Db, session_unavailable, refresh_token_invalid, refresh_token_expired, refresh_token_reused,
  refresh_token_conflict,
}
use stock_backend.Session.Service
use stock_backend.Session.Service.{Deps, Draw, TokenPair}
use stock_backend.Transport.Request.{Request}
use stock_backend.AuthHttp.Cookies.{
  Cookie, SessionCookieConfig, clear_session_cookies, clear_session_cookies_for_config,
}
use stock_backend.AuthHttp.Handler.{
  Response, signed_in, refresh_refused, refresh_answer, answered, refresh_with, refresh_token_of,
  refresh,
}

abbrev pub IsDeletion : Cookie → Type 0
IsDeletion k = (k.value ≡ "") × (k.max_age ≡ negsuc 0)

-- The answer signs nobody in, and all that it sets are deletions.
abbrev pub SignsNobodyIn : Response → Type 0
SignsNobodyIn r = (r.status ≢ 200) × All IsDeletion r.set_cookies

cleared-IsDeletion :
    (now : ℕ) (cfg : SessionCookieConfig) → All IsDeletion (clear_session_cookies now cfg)
unfolding clear_session_cookies clear_session_cookies_for_config
cleared-IsDeletion now cfg = elim (Bool-cases (cfg.domain == "")) [
  | inl e ↦ rw e ((refl, refl), ((refl, refl), ((refl, refl), tt)))
  | inr e ↦ rw e (
    (refl, refl),
    ((refl, refl), ((refl, refl), ((refl, refl), ((refl, refl), ((refl, refl), tt))))),
  )
]

module _ (cfg : SessionCookieConfig) (now : ℕ) where
  refused-SignsNobodyIn : (e : Store.Error) → SignsNobodyIn (refresh_refused cfg now e)
  unfolding refresh_refused
  refused-SignsNobodyIn refresh_token_invalid = ((λ e. ground arith), cleared-IsDeletion now cfg)
  refused-SignsNobodyIn refresh_token_expired = ((λ e. ground arith), cleared-IsDeletion now cfg)
  refused-SignsNobodyIn refresh_token_reused = ((λ e. ground arith), cleared-IsDeletion now cfg)
  refused-SignsNobodyIn e = ((λ e. ground arith), tt)

  answered_outcome :
      (csrf_token : String) (service : Result Store.Error TokenPair × Conn Db)
      → ((pair : TokenPair) × (service
            ≡ (ok pair, (answered cfg now (refresh_answer cfg now csrf_token) service).1))
          × ((answered cfg now (refresh_answer cfg now csrf_token) service).0
              ≡ signed_in cfg now csrf_token pair))
        ⊎ SignsNobodyIn (answered cfg now (refresh_answer cfg now csrf_token) service).0
  unfolding refresh_answer
  answered_outcome csrf_token (ok pair, c) = inl (pair, refl, refl)
  answered_outcome csrf_token (err e, c) = inr (refused-SignsNobodyIn e)

  module _ (d : Deps) (draw : Draw) (csrf : Option String) (r : Request) (c : Conn Db) where
    abbrev run : Response × Conn Db
    run = refresh cfg now d draw csrf r c

    -- The cookie's token was exchanged for the pair that the answer sets, beside a CSRF token.
    abbrev pub Exchanged : Type 0
    Exchanged =
        (token : String) × (csrf_token : String) × (pair : TokenPair) × (refresh_token_of r
          ≡ some token)
        × (csrf ≡ some csrf_token)
        × (Service.refresh d draw now token c ≡ (ok pair, run.1))
        × (run.0 ≡ signed_in cfg now csrf_token pair)

    -- Nobody is signed in, and without a CSRF token the session is not touched.
    abbrev pub Declined : Type 0
    Declined = SignsNobodyIn run.0 × (csrf ≡ none → run.1 ≡ c)

    -- Either the refresh cookie's token was exchanged by the service for a pair and the answer sets
    -- exactly this pair with the CSRF token; or the answer is not 200, all cookies that it sets are
    -- deletions, and without a CSRF token nothing happened to the session.
    pub refresh_outcome : Exchanged ⊎ Declined
    unfolding refresh refresh_with
    refresh_outcome = elim (Option-cases (refresh_token_of r)) [
      | inl e ↦ inr (rw (refresh, e) (((λ f. ground arith), tt), (λ _. refl)))
      | inr (token, e) ↦ elim (Option-cases csrf) [
        | inl f ↦ inr (rw (refresh, e, refresh_with, f) (((λ g. ground arith), tt), (λ _. refl)))
        | inr (csrf_token, f) ↦
            elim (answered_outcome csrf_token (Service.refresh d draw now token c)) [
              | inl (pair, g, h) ↦ inl (
                token,
                csrf_token,
                pair,
                e,
                f,
                rw (refresh, e, refresh_with, f) g,
                rw (refresh, e, refresh_with, f) h,
              )
              | inr none_in ↦ inr (
                rw (refresh, e, refresh_with, f) none_in,
                λ no. absurd (let never : some csrf_token ≡ none = sym f ∙ no in cc),
              )
            ]
      ]
    ]

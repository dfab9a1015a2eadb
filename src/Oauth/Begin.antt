-- ===== src/Oauth/Begin.antt =====
-- A login by a provider from `BeginAuth` to `HandleCallback` (internal/feature/auth/oauth.go).
use stock_backend.Prelude.{
  ℕ, ◌+◌, ◌≡◌, refl, sym, ap, inl, inr, none, some, Option-cases, String, if◌then◌else◌, find_by,
  Bool-cases, beq_refl, ltb, string_eq,
}
use stock_backend.Database.{Result, ok, err}
use stock_backend.Session.Service.{Draw}
use stock_backend.Oauth.Store.{
  Tables, Error, unknown_provider, state_not_found, state_store, random_failed,
}
use stock_backend.Oauth.States.{of_state, new_entry, save_state, taken, consume_state}
use stock_backend.Oauth.Flow.{
  Usecase, OauthProvider, World, Answer, oauth_state_ttl, begin_auth, exchanged, handle_callback,
}

abbrev pair_of : Result Error (String × String) → String × String
pair_of (ok q) = q
pair_of (err e) = ("", "")

module _ (uc : Usecase) (draw : Draw) (now : ℕ) (provider : String) (w : World) where
  abbrev begun : Answer (String × String)
  begun = begin_auth uc draw now provider w

  -- What the callback of a state finds.
  abbrev pub Begun : String → String → Type 0
  Begun url state =
      (p : OauthProvider) × (verifier : String) × (uc.providers provider ≡ some p)
      × (url ≡ p.authorization_url state (uc.code_challenge verifier))
      × (find_by (of_state state) begun.1.states.entries
          ≡ some (new_entry now state verifier oauth_state_ttl))

  begin_auth-Begun : (url state : String) → begun.0 ≡ ok (url, state) → Begun url state
  unfolding begin_auth save_state
  begin_auth-Begun url state h = elim (Option-cases (uc.providers provider)) [
    | inl e ↦
        absurd (let no : err unknown_provider ≡ ok (url, state) = rw (e, begin_auth) at h in cc)
    | inr (p, e) ↦ elim (Option-cases (draw 0)) [
      | inl f ↦
          absurd (let no : err random_failed ≡ ok (url, state) = rw (e, f, begin_auth) at h in cc)
      | inr (s, f) ↦ elim (Option-cases (draw 1)) [
        | inl g ↦
            absurd
              (let no : err random_failed ≡ ok (url, state) = rw (e, f, g, begin_auth) at h in cc)
        | inr (v, g) ↦ elim (Option-cases (w.states.fault w.states.calls)) [
          | inr (x, k) ↦ absurd (
              let no : err (state_store x) ≡ ok (url, state) =
                rw (e, f, g, k, begin_auth, save_state) at h in
              cc)
          | inl k ↦
              let same : ok (p.authorization_url s (uc.code_challenge v), s) ≡ ok (url, state) =
                rw (e, f, g, k, begin_auth, save_state) at h in
              let found : s ≡ state = ap (λ r. (pair_of r).1) same in
              rw (← found, e, f, g, k, begin_auth, save_state, beq_refl s)
                (p, v, refl, sym (ap (λ r. (pair_of r).0) same), refl)
        ]
      ]
    ]
  ]

  -- The state of a login that was begun brings the callback, within the ten minutes, to exchange the code
  -- with the verifier whose challenge is in the URL, and later to the error for an unknown state, where
  -- the store works.
  pub handle_callback-begin_auth :
      (url state : String)
      → begun.0 ≡ ok (url, state)
      → begun.1.states.fault begun.1.states.calls ≡ none
      → (p : OauthProvider) × (verifier : String) × (uc.providers provider ≡ some p)
        × (url ≡ p.authorization_url state (uc.code_challenge verifier))
        × ((later_draw : Draw) (later id : ℕ) (meanwhile : Tables → Tables) (code : String)
            → (handle_callback uc later_draw later id meanwhile provider code state begun.1).0 ≡ (
                if ltb later (now + oauth_state_ttl)
                then (exchanged uc later_draw later id meanwhile provider
                    (p.exchange_code code verifier)
                    begun.1.conn).0
                else err state_not_found))
  unfolding handle_callback consume_state taken
  handle_callback-begin_auth url state h no_fault =
      let known = begin_auth-Begun url state h in
      (
        known.0,
        known.1,
        known.2,
        known.3,
        λ later_draw later id meanwhile code.
            elim (Bool-cases (ltb later (now + oauth_state_ttl))) [
              | inl e ↦
                  rw (handle_callback, consume_state, taken, known.2, no_fault, known.4, e) refl
              | inr e ↦
                  rw (handle_callback, consume_state, taken, known.2, no_fault, known.4, e) refl
            ],
      )

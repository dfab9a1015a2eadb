-- ===== src/Oauth/Replay.antt =====
-- A state of internal/feature/auth/oauth.go from `BeginAuth` to the callbacks that present it.
use stock_backend.Prelude.{
  ℕ, ◌≡◌, ◌≢◌, refl, ap, ◌∙◌, ◌==◌, false, ◌⊎◌, All, arith, inl, inr, Bool, not, none, some,
  Option-cases, List, [], ◌∷◌, String, find_by, keep, Bool-cases, string_eq,
}
use stock_backend.Database.{Result, ok, err, Conn}
use stock_backend.Session.Service.{Draw, TokenPair}
use stock_backend.Oauth.Store.{Tables, Error, unknown_provider, state_not_found, state_store}
use stock_backend.Oauth.States.{
  StateEntry, StateStore, of_state, without_state, taken, consume_state, save_state,
}
use stock_backend.Oauth.Flow.{
  Usecase, OauthProvider, World, Answer, consumed, begin_auth, handle_callback,
}

find_by-keep-not :
    (p : StateEntry → Bool) (es : List StateEntry) → find_by p (keep (λ e. not (p e)) es) ≡ none
find_by-keep-not p [] = refl
find_by-keep-not p (e ∷ es) = elim (Bool-cases (p e)) [
  | inl h ↦ rw h (find_by-keep-not p es)
  | inr h ↦ rw (h, h) (find_by-keep-not p es)
]

find_by-keep :
    (p q : StateEntry → Bool) (es : List StateEntry)
    → find_by p es ≡ none
    → find_by p (keep q es) ≡ none
find_by-keep p q [] h = refl
find_by-keep p q (e ∷ es) h = ground (arith, find_by-keep p q es)

-- A request that stops at the state: nothing happens to the tables.
abbrev pub StoppedAtState : World → Answer TokenPair → Type 0
StoppedAtState w run =
    ((run.0 ≡ err unknown_provider)
      ⊎ (run.0 ≡ err state_not_found)
      ⊎ ((x : ℕ) × (run.0 ≡ err (state_store x))))
    × (run.1.conn ≡ w.conn)

module _ (uc : Usecase) (draw : Draw) (now id : ℕ) (meanwhile : Tables → Tables) where
  consumed_states :
      (provider : String) (p : OauthProvider) (code : String) (c : Conn Tables)
      (r : Result Error String × StateStore)
      → (consumed uc draw now id meanwhile provider p code c r).1.states ≡ r.1
  consumed_states provider p code c (err e, s) = refl
  consumed_states provider p code c (ok v, s) = refl

  -- No entry of a state stops a callback with it.
  absent_state :
      (provider code state : String) (w : World)
      → find_by (of_state state) w.states.entries ≡ none
      → StoppedAtState w (handle_callback uc draw now id meanwhile provider code state w)
  unfolding handle_callback consume_state taken
  absent_state provider code state w absent = elim (Option-cases (uc.providers provider)) [
    | inl e ↦ rw (e, handle_callback) (inl refl, refl)
    | inr (p, e) ↦ elim (Option-cases (w.states.fault w.states.calls)) [
      | inl f ↦ rw (e, f, absent, handle_callback, consume_state) (inr (inl refl), refl)
      | inr (x, f) ↦ rw (e, f, handle_callback, consume_state) (inr (inr (x, refl)), refl)
    ]
  ]

  state_spent :
      (provider code state : String) (p : OauthProvider) (w : World)
      → uc.providers provider ≡ some p
      → w.states.fault w.states.calls ≡ none
      → find_by
          (of_state state)
          (handle_callback uc draw now id meanwhile provider code state w).1.states.entries
        ≡ none
  unfolding handle_callback consume_state
  state_spent provider code state p w e f =
      rw
        (
          e,
          f,
          consumed_states provider p code w.conn
              (taken now (find_by (of_state state) w.states.entries), without_state state w.states),
          handle_callback,
          consume_state,
        )
        (find_by-keep-not (of_state state) w.states.entries)

-- A request to the flow: the start of a login, with what it draws, or a callback.
pub data Visit : Type 0 where
  begins : Draw → ℕ → String → Visit
  calls_back : Draw → ℕ → ℕ → (Tables → Tables) → String → String → String → Visit

abbrev pub visit : Usecase → Visit → World → World
visit uc (begins draw now provider) w = (begin_auth uc draw now provider w).1
visit uc (calls_back draw now id meanwhile provider code state) w =
    (handle_callback uc draw now id meanwhile provider code state w).1

abbrev pub visits : Usecase → List Visit → World → World
visits uc [] w = w
visits uc (v ∷ vs) w = visits uc vs (visit uc v w)

-- A login that starts does not draw the state again.
abbrev pub DrawsOther : String → Visit → Type 0
DrawsOther state (begins draw now provider) = draw 0 ≢ some state
DrawsOther state (calls_back draw now id meanwhile provider code other) = Unit

module _ (uc : Usecase) (state : String) where
  abbrev Absent : World → Type 0
  Absent w = find_by (of_state state) w.states.entries ≡ none

  begins-Absent :
      (draw : Draw) (now : ℕ) (provider : String) (w : World)
      → draw 0 ≢ some state
      → Absent w
      → Absent (begin_auth uc draw now provider w).1
  unfolding begin_auth save_state
  begins-Absent draw now provider w other absent = elim (Option-cases (uc.providers provider)) [
    | inl e ↦ rw (e, begin_auth) absent
    | inr (p, e) ↦ elim (Option-cases (draw 0)) [
      | inl f ↦ rw (e, f, begin_auth) absent
      | inr (s, f) ↦ elim (Option-cases (draw 1)) [
        | inl g ↦ rw (e, f, g, begin_auth) absent
        | inr (v, g) ↦ elim (Option-cases (w.states.fault w.states.calls)) [
          | inr (x, k) ↦ rw (e, f, g, k, begin_auth, save_state) absent
          | inl k ↦
              let ne : (s == state) ≡ false = ground (
                arith,
                string_eq.beq_iff s state,
                λ (same : s ≡ state). other (f ∙ ap some same),
              ) in
              rw (e, f, g, k, ne, begin_auth, save_state)
                (find_by-keep (of_state state) (λ d. not (of_state s d)) w.states.entries absent)
        ]
      ]
    ]
  ]

  callback-Absent :
      (draw : Draw) (now id : ℕ) (meanwhile : Tables → Tables) (provider code other : String)
      (w : World)
      → Absent w
      → Absent (handle_callback uc draw now id meanwhile provider code other w).1
  unfolding handle_callback consume_state
  callback-Absent draw now id meanwhile provider code other w absent =
      elim (Option-cases (uc.providers provider)) [
        | inl e ↦ rw (e, handle_callback) absent
        | inr (p, e) ↦ elim (Option-cases (w.states.fault w.states.calls)) [
          | inr (x, f) ↦ rw (e, f, handle_callback, consume_state) absent
          | inl f ↦
              rw
                (
                  e,
                  f,
                  consumed_states uc draw now id meanwhile provider p code w.conn (
                    taken now (find_by (of_state other) w.states.entries),
                    without_state other w.states,
                  ),
                  handle_callback,
                  consume_state,
                )
                (find_by-keep (of_state state) (λ d. not (of_state other d)) w.states.entries
                  absent)
        ]
      ]

  visits-Absent :
      (vs : List Visit) (w : World) → All (DrawsOther state) vs → Absent w → Absent (visits uc vs w)
  visits-Absent [] w others absent = absent
  visits-Absent (begins draw now provider ∷ vs) w others absent =
      visits-Absent vs _ others.1 (begins-Absent draw now provider w others.0 absent)
  visits-Absent (calls_back draw now id meanwhile provider code other ∷ vs) w others absent =
      visits-Absent vs _ others.1
        (callback-Absent draw now id meanwhile provider code other w absent)

-- Once a callback for a known provider has presented a state to a working store, whatever came of it,
-- and after any logins that start and any callbacks since, none of which draws the state again, a
-- callback with the state stops at it: unknown provider, state not found or a failure of the store,
-- with the tables untouched.
pub handle_callback-replay :
    (uc : Usecase) (draw later_draw : Draw) (now later id later_id : ℕ)
    (meanwhile later_meanwhile : Tables → Tables) (provider code state : String) (p : OauthProvider)
    (w : World) (between : List Visit)
    → uc.providers provider ≡ some p
    → w.states.fault w.states.calls ≡ none
    → All (DrawsOther state) between
    → (later_provider later_code : String)
    → (let reached =
          visits uc between (handle_callback uc draw now id meanwhile provider code state w).1 in
        StoppedAtState reached (
          handle_callback uc later_draw later later_id later_meanwhile later_provider later_code
            state reached))
handle_callback-replay uc draw later_draw now later id later_id meanwhile later_meanwhile provider
      code state p w between e f others later_provider later_code =
    let spent = state_spent uc draw now id meanwhile provider code state p w e f in
    absent_state uc later_draw later later_id later_meanwhile later_provider later_code state
      (visits uc between (handle_callback uc draw now id meanwhile provider code state w).1)
      (visits-Absent uc state between _ others spent)

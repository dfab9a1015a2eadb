-- ===== src/Watchlist/Rewriting.antt =====
-- Either loop of `UpdateSortKeys`, for a sequence of keys that are free when they are written.
use stock_backend.Prelude.{
  ℕ, suc, ◌≡◌, ◌≢◌, refl, ◌∙◌, inl, inr, Bool, true, false, ◌&&◌, Option, List, [], ◌∷◌, String,
  ◌==◌, any, count_by, update_where, update_where_same, any-update_where, count_by-update_where,
  All, All-map, All-update_where, Distinct, Bool-cases, nat_eq, string_eq, int_eq, ℤ, arith,
  count_by-none,
}
use stock_backend.Database.{Result, err, Conn, statement, ◌>>=◌}
use stock_backend.Database.Agrees.{Agrees, Agrees-assoc, Agrees-statement}
use stock_backend.Watchlist.Store.{
  UserSymbol, Tables, Error, reorder_codes_mismatch, driver, has_code, of_user, of_symbol,
  key_taken, set_key, update_watchlist_sort_key,
}
use stock_backend.Watchlist.Repository.{TableExec, one_row, update_key, write_keys}
use stock_backend.Watchlist.Order.{place, place_absent, has_code_iff, count_by_one, Known, Coded}

abbrev pub entries_with : (ℕ → ℤ) → ℕ → List String → List (String × ℤ)
entries_with key i [] = []
entries_with key i (code ∷ codes) = (code, key i) ∷ entries_with key (suc i) codes

abbrev pub knows : List UserSymbol → List String → Bool
knows rows [] = true
knows rows (code ∷ codes) = any (has_code code) rows && knows rows codes

abbrev pub rekeyed : ℕ → (UserSymbol → UserSymbol) → Tables → Tables
rekeyed user g t = record t { watchlists = update_where (of_user user) g t.watchlists }

abbrev pub conn : Tables → (ℕ → Option ℕ) → Tables → ℕ → Conn Tables
conn d fault t n = record { durable = d; working = t; calls = n; fault = fault }

-- The rows of a user in a table have these codes, each as often.
abbrev pub Alike : ℕ → List UserSymbol → List UserSymbol → Type 0
Alike user rows ws =
    (code : String)
    → (any (of_symbol user code) ws ≡ any (has_code code) rows)
      × (count_by (of_symbol user code) ws ≡ count_by (has_code code) rows)

abbrev with_key : ℕ → String → ℤ → List UserSymbol → List UserSymbol
with_key user code key ws = update_where (of_symbol user code) (set_key key) ws

Alike-with_key :
    (user : ℕ) (code : String) (key : ℤ) (rows ws : List UserSymbol)
    → Alike user rows ws
    → Alike user rows (with_key user code key ws)
Alike-with_key user code key rows ws h other = (
  rw (any-update_where (of_symbol user other) (set_key key) (λ _. refl) (of_symbol user code) ws)
      (h other).0,
  rw
      (count_by-update_where (of_symbol user other) (set_key key) (λ _. refl) (of_symbol user code)
        ws)
      (h other).1,
)

module _ (user : ℕ) (key : ℕ → ℤ) where
  place_step :
      (i : ℕ) (code : String) (codes : List String) (ws : List UserSymbol)
      → All (λ other. other ≢ code) codes
      → update_where (of_user user) (place key i (code ∷ codes)) ws
        ≡ update_where (of_user user) (place key (suc i) codes) (with_key user code (key i) ws)
  place_step i code codes [] h = refl
  place_step i code codes (r ∷ ws) h = elim (Bool-cases (has_code code r)) [
    | inl e ↦
        let still : place key (suc i) codes (set_key (key i) r) ≡ set_key (key i) r =
          place_absent key (suc i) code codes (set_key (key i) r) h (has_code_iff code r e) in
        ground (arith, place_step i code codes ws h)
    | inr e ↦ ground (arith, place_step i code codes ws h)
  ]

  -- `Free i` is what is known of the user's keys before the i-th is written.
  module _ (Free : ℕ → ℤ → Type 0) (fresh : (i : ℕ) (k : ℤ) → Free i k → k == key i ≡ false)
      (later : (i : ℕ) (k : ℤ) → Free i k → Free (suc i) k)
      (taken : (i : ℕ) → Free (suc i) (key i)) where
    abbrev pub AllFree : ℕ → List UserSymbol → Type 0
    AllFree i ws = All (λ r. of_user user r ≡ true → Free i r.sort_key) ws

    key_free :
        (i : ℕ) (code : String) (ws : List UserSymbol)
        → AllFree i ws
        → any (key_taken user code (key i)) ws ≡ false
    key_free i code [] h = refl
    key_free i code (r ∷ ws) h =
        let rest : any (key_taken user code (key i)) ws ≡ false = key_free i code ws h.1 in
        elim (Bool-cases (of_user user r)) [
          | inl e ↦
              let new : (r.sort_key == key i) ≡ false = fresh i r.sort_key (h.0 e) in ground arith
          | inr e ↦ ground arith
        ]

    AllFree-with_key :
        (i : ℕ) (code : String) (ws : List UserSymbol)
        → AllFree i ws
        → AllFree (suc i) (with_key user code (key i) ws)
    AllFree-with_key i code ws h =
        All-update_where (λ r. of_user user r ≡ true → Free (suc i) r.sort_key)
          (of_symbol user code) (set_key (key i)) (λ r _ _ _. taken i) ws
          (All-map _ _ (λ r f e. later i r.sort_key (f e)) ws h)

    module _ (d : Tables) (fault : ℕ → Option ℕ) (rows : List UserSymbol) (coded : Coded rows)
        (spec : Result Error (Unit {0}) × Tables) where
      -- One update in front of a rest: a code that is there once gets its key, another ends the run.
      update_key-Agrees :
          (m : TableExec (Unit {0})) (i n : ℕ) (code : String) (t : Tables)
          → Alike user rows t.watchlists
          → AllFree i t.watchlists
          → (any (has_code code) rows ≡ true
              → Agrees driver
                  (conn d fault t n)
                  (m (
                    conn d fault
                      (record t { watchlists = with_key user code (key i) t.watchlists })
                      (suc n)))
                  spec)
          → (any (has_code code) rows ≡ false → spec ≡ (err reorder_codes_mismatch, d))
          → Agrees driver
              (conn d fault t n)
              ((update_key user code (key i) >>= λ _. m) (conn d fault t n))
              spec
      unfolding update_key one_row update_watchlist_sort_key
      update_key-Agrees m i n code t alike free good bad =
          Agrees-assoc driver (conn d fault t n)
            (statement driver (update_watchlist_sort_key user code (key i))) (λ c. one_row c)
            (λ _. m) spec
            (Agrees-statement driver (conn d fault t n)
              (update_watchlist_sort_key user code (key i)) (λ c. one_row c >>= λ _. m) spec
              (elim (Bool-cases (any (has_code code) rows)) [
                | inl e ↦
                    let once : count_by (of_symbol user code) t.watchlists ≡ 1 =
                      (alike code).1 ∙ (count_by_one code rows coded e).0 in
                    rw ((alike code).0, e, key_free i code t.watchlists free, once) (good e)
                | inr e ↦
                    let never : count_by (of_symbol user code) t.watchlists ≡ 0 =
                      (alike code).1 ∙ count_by-none _ _ rows (λ _ h. h) e in
                    rw ((alike code).0, e, never, bad e) (inr (refl, refl))
              ]))

      pub write_keys-Agrees :
          (k : TableExec (Unit {0})) (codes : List String) (i n : ℕ) (t : Tables)
          → Distinct (λ s. s) codes
          → Alike user rows t.watchlists
          → AllFree i t.watchlists
          → (Known rows codes
              → (m : ℕ)
              → Agrees driver
                  (conn d fault t m)
                  (k (conn d fault (rekeyed user (place key i codes) t) m))
                  spec)
          → (knows rows codes ≡ false → spec ≡ (err reorder_codes_mismatch, d))
          → Agrees driver
              (conn d fault t n)
              ((write_keys user (entries_with key i codes) >>= λ _. k) (conn d fault t n))
              spec
      unfolding write_keys
      write_keys-Agrees k [] i n t dc alike free good bad =
          rw (update_where_same (of_user user) t.watchlists) at good tt n
      write_keys-Agrees k (code ∷ codes) i n t dc alike free good bad =
          Agrees-assoc driver (conn d fault t n) (update_key user code (key i))
            (λ _. write_keys user (entries_with key (suc i) codes)) (λ _. k) spec
            (update_key-Agrees (write_keys user (entries_with key (suc i) codes) >>= λ _. k) i n
              code t alike free
              (λ e.
                write_keys-Agrees k codes (suc i) (suc n) _ dc.1
                  (Alike-with_key user code (key i) rows t.watchlists alike)
                  (AllFree-with_key i code t.watchlists free)
                  (λ known m. rw (place_step i code codes t.watchlists dc.0) at good (e, known) m)
                  (λ h. bad (ground arith)))
              (λ h. bad (ground arith)))

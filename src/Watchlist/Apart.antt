-- ===== src/Watchlist/Apart.antt =====
-- The two unique indexes of `watchlists` when the rows of a user get the keys of their places.
use stock_backend.Prelude.{
  ℕ, suc, ◌≡◌, ◌≢◌, refl, sym, ap, subst, ◌∙◌, inl, inr, true, false, List, [], ◌∷◌, String,
  if◌then◌else◌, All, update_where, Distinct, Bool-cases, nat_eq, string_eq, ℤ, pos, ltb_ℤ, arith,
}
use stock_backend.Watchlist.Store.{UserSymbol, has_code, of_user}
use stock_backend.Watchlist.Order.{place, in_codes, has_code_iff}
use stock_backend.Watchlist.Sorting.{place_above}
use stock_backend.Watchlist.Invariant.{IsPos, per_user}

pub code-place :
    (key : ℕ → ℤ) (i : ℕ) (codes : List String) (r : UserSymbol)
    → per_user (λ s. UserSymbol.symbol_code s) (place key i codes r)
      ≡ per_user (λ s. UserSymbol.symbol_code s) r
code-place key i [] r = refl
code-place key i (code ∷ codes) r = elim (Bool-cases (has_code code r)) [
  | inl e ↦ rw e refl
  | inr e ↦ rw e (code-place key (suc i) codes r)
]

pub place-IsPos :
    (i : ℕ) (codes : List String) (r : UserSymbol)
    → IsPos r.sort_key
    → IsPos (place pos i codes r).sort_key
place-IsPos i [] r h = h
place-IsPos i (code ∷ codes) r h = elim (Bool-cases (has_code code r)) [
  | inl e ↦ rw e tt
  | inr e ↦ rw e (place-IsPos (suc i) codes r h)
]

first-place_apart :
    (i : ℕ) (code : String) (codes : List String) (r s : UserSymbol)
    → has_code code r ≡ true
    → has_code code s ≡ false
    → in_codes codes s ≡ true
    → (place pos i (code ∷ codes) r).sort_key ≢ (place pos i (code ∷ codes) s).sort_key
first-place_apart i code codes r s e f h =
    rw (e, f)
      (λ same.
        let above : ltb_ℤ (pos i) (pos i) ≡ true =
          subst (λ k. ltb_ℤ (pos i) k ≡ true) (sym same)
            (place_above (suc i) i codes s (omega arith) h) in
        ground arith)

-- Different codes of the list have different places.
key-place_apart :
    (i : ℕ) (codes : List String) (r s : UserSymbol)
    → in_codes codes r ≡ true
    → in_codes codes s ≡ true
    → r.symbol_code ≢ s.symbol_code
    → (place pos i codes r).sort_key ≢ (place pos i codes s).sort_key
key-place_apart i [] r s hr hs ne = cc
key-place_apart i (code ∷ codes) r s hr hs ne = elim (Bool-cases (has_code code r)) [
  | inl e ↦ elim (Bool-cases (has_code code s)) [
    | inl f ↦ absurd (ne (has_code_iff code r e ∙ sym (has_code_iff code s f)))
    | inr f ↦ first-place_apart i code codes r s e f (ground arith)
  ]
  | inr e ↦ elim (Bool-cases (has_code code s)) [
    | inl f ↦ λ same. first-place_apart i code codes s r f e (ground arith) (sym same)
    | inr f ↦ rw (e, f) (key-place_apart (suc i) codes r s (ground arith) (ground arith) ne)
  ]
]

same_user : (user : ℕ) (r s : UserSymbol) → s.user_id ≡ r.user_id → of_user user s ≡ of_user user r
same_user user r s e = rw e refl

user-place :
    (key : ℕ → ℤ) (i : ℕ) (codes : List String) (r : UserSymbol)
    → (place key i codes r).user_id ≡ r.user_id
user-place key i codes r = ap (λ p. p.0) (code-place key i codes r)

module _ (user : ℕ) (codes : List String) where
  abbrev moved : UserSymbol → UserSymbol
  moved r = if of_user user r then place pos 0 codes r else r

  user-moved : (r : UserSymbol) → (moved r).user_id ≡ r.user_id
  user-moved r = elim (Bool-cases (of_user user r)) [
    | inl e ↦ rw e (user-place pos 0 codes r)
    | inr e ↦ rw e refl
  ]

  -- Two rows that differ in either index differ in the index of the keys when the user's are placed.
  moved_apart :
      (r s : UserSymbol)
      → (of_user user r ≡ true → in_codes codes r ≡ true)
      → (of_user user s ≡ true → in_codes codes s ≡ true)
      → per_user (λ x. UserSymbol.symbol_code x) s ≢ per_user (λ x. UserSymbol.symbol_code x) r
      → per_user (λ x. UserSymbol.sort_key x) s ≢ per_user (λ x. UserSymbol.sort_key x) r
      → per_user (λ x. UserSymbol.sort_key x) (moved s)
        ≢ per_user (λ x. UserSymbol.sort_key x) (moved r)
  moved_apart r s hr hs codes_apart keys_apart same =
      let users : s.user_id ≡ r.user_id = sym (user-moved s) ∙ ap (λ p. p.0) same ∙ user-moved r in
      let both : of_user user s ≡ of_user user r = same_user user r s users in
      elim (Bool-cases (of_user user r)) [
        | inl e ↦
            let moved_keys : (moved s).sort_key ≡ (moved r).sort_key = ap (λ p. p.1) same in
            let keys : (place pos 0 codes s).sort_key ≡ (place pos 0 codes r).sort_key =
              rw (both, e) at moved_keys in
            key-place_apart 0 codes s r (hs (both ∙ e)) (hr e) (λ f. codes_apart cc) keys
        | inr e ↦ keys_apart (rw (both, e) at same)
      ]

  abbrev InCodes : UserSymbol → Type 0
  InCodes r = of_user user r ≡ true → in_codes codes r ≡ true

  moved-All :
      (r : UserSymbol) (ws : List UserSymbol)
      → InCodes r
      → All InCodes ws
      → All
          (λ s.
            per_user (λ x. UserSymbol.symbol_code x) s ≢ per_user (λ x. UserSymbol.symbol_code x) r)
          ws
      → All
          (λ s. per_user (λ x. UserSymbol.sort_key x) s ≢ per_user (λ x. UserSymbol.sort_key x) r)
          ws
      → All
          (λ s.
            per_user (λ x. UserSymbol.sort_key x) s
            ≢ per_user (λ x. UserSymbol.sort_key x) (moved r))
          (update_where (of_user user) (place pos 0 codes) ws)
  moved-All r [] hr h dc dk = tt
  moved-All r (s ∷ ws) hr h dc dk =
      (moved_apart r s hr h.0 dc.0 dk.0, moved-All r ws hr h.1 dc.1 dk.1)

  pub moved-Distinct :
      (ws : List UserSymbol)
      → All InCodes ws
      → Distinct (per_user (λ x. UserSymbol.symbol_code x)) ws
      → Distinct (per_user (λ x. UserSymbol.sort_key x)) ws
      → Distinct
          (per_user (λ x. UserSymbol.sort_key x))
          (update_where (of_user user) (place pos 0 codes) ws)
  moved-Distinct [] h dc dk = tt
  moved-Distinct (r ∷ ws) h dc dk =
      (moved-All r ws h.0 h.1 dc.0 dk.0, moved-Distinct ws h.1 dc.1 dk.1)

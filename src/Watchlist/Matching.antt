-- ===== src/Watchlist/Matching.antt =====
-- What `ReorderSymbols` (internal/feature/watchlist/usecase.go) accepts before it opens a transaction.
use stock_backend.Prelude.{
  ◌≡◌, ◌≢◌, ◌↔◌, refl, sym, true, false, List, [], ◌∷◌, String, ◌==◌, any, All, All-zip, Distinct,
  string_eq, arith,
}
use stock_backend.Watchlist.Store.{UserSymbol}
use stock_backend.Watchlist.Service.{codes_match}
use stock_backend.Watchlist.Order.{Known}

abbrev Unseen : List String → List String → Type 0
Unseen seen codes = All (λ code. any (λ s. s == code) seen ≡ false) codes

Unseen-tail :
    (code : String) (seen codes : List String)
    → Unseen (code ∷ seen) codes
    → All (λ other. other ≢ code) codes × Unseen seen codes
Unseen-tail code seen [] h = (tt, tt)
Unseen-tail code seen (other ∷ codes) h =
    let rest = Unseen-tail code seen codes h.1 in
    (
      (λ e. ground (arith, (string_eq.beq_iff code other).1 (sym e)), rest.0),
      (ground arith, rest.1),
    )

Unseen-more :
    (code : String) (seen codes : List String)
    → All (λ other. other ≢ code) codes
    → Unseen seen codes
    → Unseen (code ∷ seen) codes
Unseen-more code seen codes =
    All-zip (λ other. other ≢ code) _ _
      (λ other ne h. ground (arith, (string_eq.beq_iff code other).0)) codes

module _ (existing : List UserSymbol) where
  accepted :
      (seen codes : List String)
      → codes_match existing seen codes ≡ true
      → Unseen seen codes × Distinct (λ s. s) codes × Known existing codes
  unfolding codes_match
  accepted seen [] h = (tt, tt, tt)
  accepted seen (code ∷ codes) h =
      let rest = accepted (code ∷ seen) codes (ground arith) in
      let tail = Unseen-tail code seen codes rest.0 in
      ((ground arith, tail.1), (tail.0, rest.1), (ground arith, rest.2))

  acceptable :
      (seen codes : List String)
      → Unseen seen codes
      → Distinct (λ s. s) codes
      → Known existing codes
      → codes_match existing seen codes ≡ true
  unfolding codes_match
  acceptable seen [] h d known = refl
  acceptable seen (code ∷ codes) h d known =
      rw (h.0, known.0)
        (acceptable (code ∷ seen) codes (Unseen-more code seen codes d.0 h.1) d.1 known.1)

  Unseen-none : (codes : List String) → Unseen [] codes
  Unseen-none [] = tt
  Unseen-none (code ∷ codes) = (refl, Unseen-none codes)

  -- The check against the listed rows accepts exactly the lists of distinct codes each of which a row
  -- has.
  pub codes_match_iff :
      (codes : List String)
      → (codes_match existing [] codes ≡ true) ↔ (Distinct (λ s. s) codes × Known existing codes)
  codes_match_iff codes = (
    λ h. let found = accepted [] codes h in (found.1, found.2),
    λ h. acceptable [] codes (Unseen-none codes) h.0 h.1,
  )

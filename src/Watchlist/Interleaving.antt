-- ===== src/Watchlist/Interleaving.antt =====
-- `ReorderSymbols` (internal/feature/watchlist/usecase.go) from the request to the tables, whatever
-- commits between its reading and its transaction.
use stock_backend.Prelude.{
  ℕ, suc, ◌≡◌, refl, ◌∙◌, ◌&&◌, [], inl, inr, ◌⊎◌, Option-cases, List, map, String, ◌==◌, length,
  Distinct, Bool-cases, nat_eq, some,
}
use stock_backend.Database.{Result, ok, err, Conn, statement}
use stock_backend.Database.Agrees.{Agrees}
use stock_backend.Watchlist.Store.{
  UserSymbol, Tables, Error, reorder_codes_mismatch, driver, list_watchlist_by_user,
}
use stock_backend.Watchlist.Repository.{list_by_user, update_sort_keys}
use stock_backend.Watchlist.Service.{codes_match, entries_from, reorder_existing, reorder_symbols}
use stock_backend.Watchlist.Invariant.{IsValid, rows_of}
use stock_backend.Watchlist.Rewriting.{knows}
use stock_backend.Watchlist.Matching.{codes_match_iff}
use stock_backend.Watchlist.Reorder.{reordered, update_sort_keys-Agrees}
use stock_backend.Watchlist.Listing.{list-reordered, reordered-IsValid}

module _ (user : ℕ) (codes : List String) (c : Conn Tables) (t : Tables) where
  abbrev Run : Type 0
  Run = Result Error (Unit {0}) × Conn Tables

  -- The listing has the order of the request, and the tables are the reordered ones, still valid.
  abbrev pub Reordered : Run → Type 0
  Reordered run =
      (run.0 ≡ ok tt)
      × (run.1.durable ≡ (reordered user codes t).1)
      × (map (λ r. UserSymbol.symbol_code r) (list_watchlist_by_user user run.1.durable) ≡ codes)
      × IsValid run.1.durable

  -- The request is refused, or a call failed: nothing of it is in the tables.
  abbrev pub Refused : Run → Type 0
  Refused run =
      ((run.0 ≡ err reorder_codes_mismatch)
        ⊎ ((n : ℕ) × (x : ℕ) × (c.fault n ≡ some x) × (run.0 ≡ err (driver x))))
      × ((run.1.durable ≡ c.durable) ⊎ (run.1.durable ≡ t))

  reordered_cases :
      ((reordered user codes t).0 ≡ ok tt)
      ⊎ ((reordered user codes t).0 ≡ err reorder_codes_mismatch) × ((reordered user codes t).1 ≡ t)
  unfolding reordered
  reordered_cases =
      elim (Bool-cases (
        length (rows_of user t.watchlists) == length codes
        && knows (rows_of user t.watchlists) codes)) [
          | inl e ↦ rw e (inl refl)
          | inr e ↦ rw e (inr (refl, refl))
        ]

  module _ (valid : IsValid t) (dc : Distinct (λ s. s) codes) where
    outcome_of :
        (run : Run)
        → Agrees driver (record c { durable = t }) run (reordered user codes t)
        → Reordered run ⊎ Refused run
    outcome_of run (inl (n, x, failed, e, same)) = inr (inr (n, x, failed, e), inr same)
    outcome_of run (inr (e, same)) = elim reordered_cases [
      | inl done ↦ inl (
        e ∙ done,
        same,
        rw same (list-reordered user codes t valid dc done),
        rw same (reordered-IsValid user codes t valid dc),
      )
      | inr (refused, kept) ↦ inr (inl (e ∙ refused), inr (same ∙ kept))
    ]

existing_outcome :
    (user : ℕ) (codes : List String) (meanwhile : Tables → Tables) (c : Conn Tables)
    (existing : List UserSymbol)
    → IsValid (meanwhile c.durable)
    → Reordered user codes c
        (meanwhile c.durable)
        (reorder_existing user codes meanwhile existing c)
      ⊎ Refused user codes c
          (meanwhile c.durable)
          (reorder_existing user codes meanwhile existing c)
unfolding reorder_existing
existing_outcome user codes meanwhile c existing valid =
    elim (Bool-cases (length codes == length existing)) [
      | inr e ↦ rw e (inr (inl refl, inl refl))
      | inl e ↦ elim (Bool-cases (codes_match existing [] codes)) [
        | inr f ↦ rw (e, f) (inr (inl refl, inl refl))
        | inl f ↦
            let c' : Conn Tables = record c { durable = meanwhile c.durable } in
            let dc : Distinct (λ s. s) codes = ((codes_match_iff existing codes).0 f).0 in
            rw (e, f)
              (outcome_of user codes c (meanwhile c.durable) valid dc
                (update_sort_keys user (entries_from 0 codes) c')
                (update_sort_keys-Agrees user codes c' valid dc))
      ]
    ]

-- Whatever other transactions commit between the reading of a reordering and its transaction, as long as
-- it leaves valid tables: either the request succeeds, the tables are the reordered ones, the listing
-- has exactly the order of the request and the tables are valid; or it is refused as a mismatch, or by
-- a failed call, and nothing of it is in the tables.
pub reorder_symbols_outcome :
    (user : ℕ) (codes : List String) (meanwhile : Tables → Tables) (c : Conn Tables)
    → IsValid (meanwhile c.durable)
    → Reordered user codes c (meanwhile c.durable) (reorder_symbols user codes meanwhile c)
      ⊎ Refused user codes c (meanwhile c.durable) (reorder_symbols user codes meanwhile c)
unfolding reorder_symbols list_by_user
reorder_symbols_outcome user codes meanwhile c valid = elim (Option-cases (c.fault c.calls)) [
  | inl e ↦
      rw (e, statement)
        (existing_outcome user codes meanwhile
          (record c { working = c.durable; calls = suc c.calls })
          (list_watchlist_by_user user c.durable) valid)
  | inr (x, e) ↦ inr (inr (c.calls, x, e, rw (e, statement) refl), inl (rw (e, statement) refl))
]

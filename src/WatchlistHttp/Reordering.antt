-- ===== src/WatchlistHttp/Reordering.antt =====
-- What the status of a reordering says of the watchlist.
use stock_backend.Prelude.{
  ℕ, ◌≡◌, refl, ap, ◌⊎◌, inl, inr, not, some, List, map, String, any, Bool-cases,
}
use stock_backend.Database.{Result, Conn}
use stock_backend.Watchlist.Store.{UserSymbol, Tables, Error, list_watchlist_by_user}
use stock_backend.Watchlist.Service.{reorder_symbols}
use stock_backend.Watchlist.Invariant.{IsValid}
use stock_backend.Watchlist.Interleaving.{Reordered, Refused, reorder_symbols_outcome}
use stock_backend.WatchlistHttp.Handler.{
  Response, answered, reorder_answer, reorder, symbol_code_pattern,
}

module _ (user : ℕ) (codes : List String) (meanwhile : Tables → Tables) (c : Conn Tables) where
  abbrev run : Response × Conn Tables
  run = reorder (some user) (some codes) meanwhile c

  -- 204: the listing is the request.
  abbrev pub Done : Response × Conn Tables → Type 0
  Done answer =
      (answer.0.status ≡ 204)
      × (map (λ r. UserSymbol.symbol_code r) (list_watchlist_by_user user answer.1.durable) ≡ codes)

  -- 400, or 500 after a failed call: nothing of the request is there.
  abbrev pub NotDone : Response × Conn Tables → Type 0
  NotDone answer =
      ((answer.0.status ≡ 400) ⊎ (answer.0.status ≡ 500) × (n : ℕ) × (x : ℕ) × (c.fault n ≡ some x))
      × ((answer.1.durable ≡ c.durable) ⊎ (answer.1.durable ≡ meanwhile c.durable))

  status_of :
      (r : Result Error (Unit {0}) × Conn Tables)
      → Reordered user codes c (meanwhile c.durable) r
        ⊎ Refused user codes c (meanwhile c.durable) r
      → Done (answered reorder_answer r) ⊎ NotDone (answered reorder_answer r)
  unfolding reorder_answer
  status_of (r, d) (inl (e, tables, listed, valid)) =
      inl (ap (λ x. (reorder_answer x).status) e, listed)
  status_of (r, d) (inr (inl e, same)) = inr (inl (ap (λ x. (reorder_answer x).status) e), same)
  status_of (r, d) (inr (inr (n, x, f, e), same)) =
      inr (inr (ap (λ y. (reorder_answer y).status) e, n, x, f), same)

  -- Whatever valid tables others commit meanwhile: 204 says that the listing has exactly the order of
  -- the request. Every other answer to a signed-in user with a body is 400, or 500 after a failed call,
  -- and nothing of the request is in the tables.
  pub reorder_status : IsValid (meanwhile c.durable) → Done run ⊎ NotDone run
  unfolding reorder
  reorder_status valid = elim (Bool-cases (any (λ s. not (symbol_code_pattern s)) codes)) [
    | inl e ↦ rw e (inr (inl refl, inl refl))
    | inr e ↦ rw e (
        status_of (reorder_symbols user codes meanwhile c)
          (reorder_symbols_outcome user codes meanwhile c valid))
  ]

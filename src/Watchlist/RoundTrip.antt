-- ===== src/Watchlist/RoundTrip.antt =====
-- `RemoveSymbol` after `AddSymbol` (internal/feature/watchlist/usecase.go).
use stock_backend.Prelude.{
  ℕ, ◌≡◌, ◌≢◌, refl, sym, ◌∙◌, inl, inr, false, String, ◌==◌, any, keep_all, beq_refl, Bool-cases,
  nat_eq, string_eq, pos, max_int64,
}
use stock_backend.Database.{Result, ok, err, Conn}
use stock_backend.Database.Agrees.{Agrees}
use stock_backend.Watchlist.Store.{
  Tables, Error, driver, of_symbol, with_row, symbol_not_found, no_rows, already_in_watchlist,
  max_watchlist_sort_key,
}
use stock_backend.Watchlist.Service.{add_symbol, remove_symbol}
use stock_backend.Watchlist.Invariant.{IsValid}
use stock_backend.Watchlist.Adding.{added, add_symbol-Agrees, next_key}
use stock_backend.Watchlist.Removing.{dropped, remove_symbol-Agrees}

-- A run that succeeds has the specification's tables.
succeeded :
    (c : Conn Tables) (run : Result Error (Unit {0}) × Conn Tables)
    (spec : Result Error (Unit {0}) × Tables)
    → Agrees driver c run spec
    → run.0 ≡ ok tt
    → (spec.0 ≡ ok tt) × (run.1.durable ≡ spec.1)
succeeded c run spec (inl (_, x, _, e, _)) h =
    absurd (let no : err (driver x) ≡ ok tt = sym e ∙ h in cc)
succeeded c run spec (inr (e, same)) h = (sym e ∙ h, same)

module _ (user : ℕ) (code : String) (t : Tables) where
  added_row :
      (added user code t).0 ≡ ok tt
      → (any (of_symbol user code) t.watchlists ≡ false)
        × ((added user code t).1 ≡ with_row user code (next_key user t) t)
  unfolding added
  added_row h = elim (Bool-cases (any (λ s. s == code) t.symbols)) [
    | inr e ↦ absurd (let no : err symbol_not_found ≡ ok tt = rw e at h in cc)
    | inl e ↦ elim (Bool-cases (any (λ u. u == user) t.users)) [
      | inr f ↦ absurd (let no : err no_rows ≡ ok tt = rw (e, f) at h in cc)
      | inl f ↦ elim (Bool-cases (any (of_symbol user code) t.watchlists)) [
        | inl g ↦ absurd (let no : err already_in_watchlist ≡ ok tt = rw (e, f, g) at h in cc)
        | inr g ↦ (g, rw (e, f, g) refl)
      ]
    ]
  ]

  dropped_row :
      any (of_symbol user code) t.watchlists ≡ false
      → (dropped user code (with_row user code (next_key user t) t)).1.watchlists ≡ t.watchlists
  unfolding dropped
  dropped_row h = rw (beq_refl user, beq_refl code) (keep_all (of_symbol user code) t.watchlists h)

-- On valid tables with a key left, a removal that succeeds right after the addition of the same symbol
-- that succeeded leaves the rows as they were.
pub remove_symbol-add_symbol :
    (user : ℕ) (code : String) (c : Conn Tables)
    → IsValid c.durable
    → max_watchlist_sort_key user c.durable ≢ pos max_int64
    → (add_symbol user code c).0 ≡ ok tt
    → (remove_symbol user code (add_symbol user code c).1).0 ≡ ok tt
    → (remove_symbol user code (add_symbol user code c).1).1.durable.watchlists
      ≡ c.durable.watchlists
remove_symbol-add_symbol user code c valid ne h g =
    let c' : Conn Tables = (add_symbol user code c).1 in
    let there =
      succeeded c (add_symbol user code c) (added user code c.durable)
        (add_symbol-Agrees user code c valid ne) h in
    let gone =
      succeeded c' (remove_symbol user code c') (dropped user code c'.durable)
        (remove_symbol-Agrees user code c') g in
    let row = added_row user code c.durable there.0 in
    rw (gone.1, there.1, row.1) (dropped_row user code c.durable row.0)

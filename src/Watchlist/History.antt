-- ===== src/Watchlist/History.antt =====
-- The tables of the watchlist after any sequence of requests (internal/feature/watchlist), with any
-- failures of the driver. The repository of other features adds users and symbols.
use stock_backend.Prelude.{
  ℕ, suc, ◌≡◌, ◌≢◌, refl, sym, subst, inl, inr, Bool, true, false, List, [], ◌∷◌, String, any, ℤ,
  pos, max_int64, ◌==◌, string_eq,
}
use stock_backend.Database.{Result, ok, err, Conn, statement, autocommit, inspect}
use stock_backend.Database.Agrees.{Agrees-keeps}
use stock_backend.Database.Preserves.{
  Preserves, Preserves-bind, Preserves-query, Preserves-autocommit,
}
use stock_backend.Watchlist.Store.{Tables, Error, driver, insert_watchlist, max_watchlist_sort_key}
use stock_backend.Watchlist.Repository.{mapped, add}
use stock_backend.Watchlist.Service.{
  symbol_exists, add_symbol, remove_symbol, reorder_symbols, add_default, add_defaults,
  initialize_defaults,
}
use stock_backend.Watchlist.Invariant.{IsPos, IsValid}
use stock_backend.Watchlist.Adding.{inserted, added as added_tables, add_symbol-Agrees}
use stock_backend.Watchlist.Growth.{inserted-IsValid, added-IsValid}
use stock_backend.Watchlist.Removing.{dropped, remove_symbol-Agrees, dropped-IsValid}
use stock_backend.Watchlist.Interleaving.{reorder_symbols_outcome}

-- The states that the requests lead to. Between the two parts of a reordering others may commit.
pub data Reachable : Tables → Type 0 where
  initial :
      (users : List ℕ)
      → (symbols : List String)
      → Reachable (record { users = users; symbols = symbols; watchlists = []; next_id = 1 })
  registered :
      (user : ℕ) → (t : Tables) → Reachable t → Reachable (record t { users = user ∷ t.users })
  listed :
      (code : String)
      → (t : Tables) → Reachable t
      → Reachable (record t { symbols = code ∷ t.symbols })
  initialized :
      (user : ℕ)
      → (c : Conn Tables) → Reachable c.durable
      → Reachable (initialize_defaults user c).1.durable
  added :
      (user : ℕ)
      → (code : String) → (c : Conn Tables) → Reachable c.durable
      → max_watchlist_sort_key user c.durable ≢ pos max_int64
      → Reachable (add_symbol user code c).1.durable
  removed_symbol :
      (user : ℕ)
      → (code : String) → (c : Conn Tables) → Reachable c.durable
      → Reachable (remove_symbol user code c).1.durable
  reordered :
      (user : ℕ)
      → (codes : List String) → (meanwhile : Tables → Tables) → (c : Conn Tables)
      → Reachable c.durable
      → Reachable (meanwhile c.durable)
      → Reachable (reorder_symbols user codes meanwhile c).1.durable

module _ (user : ℕ) (code : String) (key : ℤ) (p : IsPos key) where
  mapped_same :
      (run : Result Error (Unit {0}) × Conn Tables) → (inspect mapped run).1.durable ≡ run.1.durable
  unfolding mapped
  mapped_same (ok u, c) = refl
  mapped_same (err e, c) = refl

  insert_keeps :
      (t : Tables)
      → IsValid t
      → (u : Unit {0}) (t' : Tables) → insert_watchlist user code key t ≡ ok (u, t')
      → IsValid t'
  unfolding inserted
  insert_keeps t valid u t' e =
      let kept : IsValid (inserted t (insert_watchlist user code key t)).1 =
        inserted-IsValid user code key t valid p in
      rw e at kept

  add-Preserves : Preserves IsValid (add user code key)
  unfolding add
  add-Preserves c valid =
      rw (mapped_same (autocommit (statement driver (insert_watchlist user code key)) c))
        (Preserves-autocommit IsValid driver (insert_watchlist user code key) insert_keeps c valid)

add_default-Preserves :
    (user i : ℕ) (code : String) (exists : Bool)
    → Preserves IsValid (add_default user i code exists)
unfolding add_default
add_default-Preserves user i code true c valid = add-Preserves user code (pos i) tt c valid
add_default-Preserves user i code false c valid = valid

add_defaults-Preserves :
    (user i : ℕ) (codes : List String) → Preserves IsValid (add_defaults user i codes)
unfolding add_defaults symbol_exists
add_defaults-Preserves user i [] c valid = valid
add_defaults-Preserves user i (code ∷ codes) c valid =
    Preserves-bind IsValid (symbol_exists code) _
      (Preserves-query IsValid driver (λ t. any (λ s. s == code) t.symbols))
      (λ exists.
        Preserves-bind IsValid (add_default user i code exists) _
          (add_default-Preserves user i code exists)
          (λ _. add_defaults-Preserves user (suc i) codes))
      c valid

-- Any sequence of default watchlists, additions with a key left, removals and reorderings, with any
-- failures of the driver and any such commits inside a reordering, leaves tables in which each user has
-- a symbol once, a key once, and no key below 0.
pub Reachable-IsValid : (t : Tables) → Reachable t → IsValid t
unfolding initialize_defaults
Reachable-IsValid _ (initial users symbols) = record {
  one_per_code = tt;
  one_per_key = tt;
  keys_from_zero = tt;
}
Reachable-IsValid _ (registered user t r) =
    let valid : IsValid t = Reachable-IsValid t r in
    record {
      one_per_code = valid.one_per_code;
      one_per_key = valid.one_per_key;
      keys_from_zero = valid.keys_from_zero;
    }
Reachable-IsValid _ (listed code t r) =
    let valid : IsValid t = Reachable-IsValid t r in
    record {
      one_per_code = valid.one_per_code;
      one_per_key = valid.one_per_key;
      keys_from_zero = valid.keys_from_zero;
    }
Reachable-IsValid _ (initialized user c r) =
    add_defaults-Preserves user 0 ("AAPL" ∷ "MSFT" ∷ "GOOGL" ∷ []) c (Reachable-IsValid c.durable r)
Reachable-IsValid _ (added user code c r ne) =
    let valid : IsValid c.durable = Reachable-IsValid c.durable r in
    Agrees-keeps IsValid driver c (add_symbol user code c) (added_tables user code c.durable) valid
      (added-IsValid user code c.durable valid ne) (add_symbol-Agrees user code c valid ne)
Reachable-IsValid _ (removed_symbol user code c r) =
    let valid : IsValid c.durable = Reachable-IsValid c.durable r in
    Agrees-keeps IsValid driver c (remove_symbol user code c) (dropped user code c.durable) valid
      (dropped-IsValid user code c.durable valid) (remove_symbol-Agrees user code c)
Reachable-IsValid _ (reordered user codes meanwhile c r s) =
    let valid : IsValid (meanwhile c.durable) = Reachable-IsValid (meanwhile c.durable) s in
    elim (reorder_symbols_outcome user codes meanwhile c valid) [
      | inl (_, _, _, still) ↦ still
      | inr (_, inl same) ↦ subst IsValid (sym same) (Reachable-IsValid c.durable r)
      | inr (_, inr same) ↦ subst IsValid (sym same) valid
    ]

-- ===== src/Watchlist/Service.antt =====
-- internal/feature/watchlist/usecase.go. `SymbolExistsChecker` is the repository of the symbol list:
-- one query over the same tables. Between the reading of `ReorderSymbols` and its transaction other
-- transactions may commit: `meanwhile` is what they do.
use stock_backend.Prelude.{
  ℕ, suc, Bool, true, false, not, List, [], ◌∷◌, String, ◌==◌, if◌then◌else◌, length, any, nat_eq,
  string_eq, ℤ, pos,
}
use stock_backend.Database.{pure, fail, query, autocommit, ◌>>=◌, ◌>>◌}
use stock_backend.Watchlist.Store.{
  UserSymbol, Tables, has_code, symbol_not_found, reorder_codes_mismatch, driver,
}
use stock_backend.Watchlist.Repository.{
  TableExec, list_by_user, add, remove, update_sort_keys, add_with_next_sort_key,
}

unfoldable pub symbol_exists : String → TableExec Bool
symbol_exists code = autocommit (query driver (λ t. any (λ s. s == code) t.symbols))

unfoldable pub list_user_symbols : ℕ → TableExec (List UserSymbol)
unfolding list_by_user
list_user_symbols = list_by_user

unfoldable pub add_existing : ℕ → String → Bool → TableExec (Unit {0})
unfolding add_with_next_sort_key
add_existing user code exists =
    if not exists then fail symbol_not_found else add_with_next_sort_key user code

unfoldable pub add_symbol : ℕ → String → TableExec (Unit {0})
unfolding symbol_exists add_existing
add_symbol user code = do exists ← symbol_exists code; add_existing user code exists

unfoldable pub remove_symbol : ℕ → String → TableExec (Unit {0})
unfolding remove
remove_symbol = remove

-- The loop over `orderedCodes` with the map `seen`: no code twice, none that is not there.
unfoldable pub codes_match : List UserSymbol → List String → List String → Bool
codes_match existing seen [] = true
codes_match existing seen (code ∷ codes) =
    let rest = codes_match existing (code ∷ seen) codes in
    if any (λ s. s == code) seen
    then false
    else if not (any (has_code code) existing)
    then false
    else rest

unfoldable pub entries_from : ℕ → List String → List (String × ℤ)
entries_from i [] = []
entries_from i (code ∷ codes) = (code, pos i) ∷ entries_from (suc i) codes

unfoldable pub reorder_existing :
    ℕ → List String → (Tables → Tables) → List UserSymbol → TableExec (Unit {0})
unfolding codes_match entries_from update_sort_keys
reorder_existing user codes meanwhile existing =
    if not (length codes == length existing)
    then fail reorder_codes_mismatch
    else if not (codes_match existing [] codes)
    then fail reorder_codes_mismatch
    else (λ c.
        update_sort_keys user (entries_from 0 codes) (record c { durable = meanwhile c.durable }))

unfoldable pub reorder_symbols : ℕ → List String → (Tables → Tables) → TableExec (Unit {0})
unfolding list_by_user reorder_existing
reorder_symbols user codes meanwhile = do
  existing ← list_by_user user
  reorder_existing user codes meanwhile existing

unfoldable pub add_default : ℕ → ℕ → String → Bool → TableExec (Unit {0})
unfolding add
add_default user i code exists = if not exists then pure tt else add user code (pos i)

unfoldable pub add_defaults : ℕ → ℕ → List String → TableExec (Unit {0})
unfolding symbol_exists add_default
add_defaults user i [] = pure tt
add_defaults user i (code ∷ codes) = do
  exists ← symbol_exists code
  add_default user i code exists
  add_defaults user (suc i) codes

-- `InitializeDefaults`, which `OnUserCreated` calls.
unfoldable pub initialize_defaults : ℕ → TableExec (Unit {0})
unfolding add_defaults
initialize_defaults user = add_defaults user 0 ("AAPL" ∷ "MSFT" ∷ "GOOGL" ∷ [])

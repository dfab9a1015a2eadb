-- ===== src/Watchlist/Repository.antt =====
-- internal/feature/watchlist/repository.go: each method as a computation on a connection.
use stock_backend.Prelude.{
  ℕ, suc, Option, none, some, List, [], ◌∷◌, String, ◌==◌, if◌then◌else◌, length, nat_eq, ℤ, negsuc,
  not, succ_int64,
}
use stock_backend.Database.{
  Result, ok, err, Exec, pure, fail, statement, query, begin, commit, deferred_rollback, autocommit,
  inspect, ◌>>=◌, ◌>>◌,
}
use stock_backend.Watchlist.Store.{
  UserSymbol, Tables, Error, idx_watchlist_user_symbol, symbol_not_found, already_in_watchlist,
  not_in_watchlist, reorder_codes_mismatch, unique_violation, foreign_key_violation, no_rows,
  driver, insert_watchlist, delete_watchlist, list_watchlist_by_user, lock_watchlist_by_user,
  lock_watchlist_user, max_watchlist_sort_key, update_watchlist_sort_key,
}

abbrev pub TableExec : Type 0 → Type 0
TableExec A = Exec Tables Error A

-- `mapWatchlistPGErr` of an error.
unfoldable pub map_watchlist_pg_err : Error → Error
map_watchlist_pg_err (unique_violation idx_watchlist_user_symbol) = already_in_watchlist
map_watchlist_pg_err foreign_key_violation = symbol_not_found
map_watchlist_pg_err e = e

unfoldable pub mapped : Result Error (Unit {0}) → TableExec (Unit {0})
unfolding map_watchlist_pg_err
mapped (ok u) = pure u
mapped (err e) = fail (map_watchlist_pg_err e)

unfoldable pub list_by_user : ℕ → TableExec (List UserSymbol)
list_by_user user = autocommit (query driver (list_watchlist_by_user user))

unfoldable pub add : ℕ → String → ℤ → TableExec (Unit {0})
unfolding mapped
add user code key c =
    inspect mapped (autocommit (statement driver (insert_watchlist user code key)) c)

unfoldable pub removed : ℕ → TableExec (Unit {0})
removed n = if n == 0 then fail not_in_watchlist else pure tt

unfoldable pub remove : ℕ → String → TableExec (Unit {0})
unfolding removed
remove user code = do
  n ← autocommit (statement driver (λ t. ok (delete_watchlist user code t)))
  removed n

-- One round of either loop: the update, and its number of rows.
unfoldable pub one_row : ℕ → TableExec (Unit {0})
one_row n = if n == 1 then pure tt else fail reorder_codes_mismatch

unfoldable pub update_key : ℕ → String → ℤ → TableExec (Unit {0})
unfolding one_row
update_key user code key = do
  n ← statement driver (update_watchlist_sort_key user code key)
  one_row n

-- The keys that the two loops write: -(i + 1) for the i-th entry, then the entry's own.
unfoldable pub shift_keys : ℕ → ℕ → List (String × ℤ) → TableExec (Unit {0})
unfolding update_key
shift_keys user i [] = pure tt
shift_keys user i ((code, key) ∷ entries) = do
  update_key user code (negsuc i)
  shift_keys user (suc i) entries

unfoldable pub write_keys : ℕ → List (String × ℤ) → TableExec (Unit {0})
unfolding update_key
write_keys user [] = pure tt
write_keys user ((code, key) ∷ entries) = do update_key user code key; write_keys user entries

unfoldable pub update_locked : ℕ → List (String × ℤ) → List ℕ → TableExec (Unit {0})
unfolding shift_keys write_keys
update_locked user entries locked =
    if not (length locked == length entries)
    then fail reorder_codes_mismatch
    else do shift_keys user 0 entries; write_keys user entries; commit driver; pure tt

-- `UpdateSortKeys`; of an entry its code and its key are read.
unfoldable pub update_sort_keys : ℕ → List (String × ℤ) → TableExec (Unit {0})
unfolding update_locked
update_sort_keys user entries = deferred_rollback (do
  begin driver
  locked ← query driver (lock_watchlist_by_user user)
  update_locked user entries locked)

unfoldable pub insert_next : ℕ → String → ℤ → TableExec (Unit {0})
unfolding mapped
insert_next user code max_key = do
  (λ c. inspect mapped (statement driver (insert_watchlist user code (succ_int64 max_key)) c))
  commit driver
  pure tt

unfoldable pub add_locked : ℕ → String → Option ℕ → TableExec (Unit {0})
unfolding insert_next
add_locked user code none = fail no_rows
add_locked user code (some id) = do
  max_key ← query driver (max_watchlist_sort_key user)
  insert_next user code max_key

-- `AddWithNextSortKey`
unfoldable pub add_with_next_sort_key : ℕ → String → TableExec (Unit {0})
unfolding add_locked
add_with_next_sort_key user code =
    deferred_rollback
      (do begin driver; found ← query driver (lock_watchlist_user user); add_locked user code found)

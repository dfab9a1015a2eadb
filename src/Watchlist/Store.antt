-- ===== src/Watchlist/Store.antt =====
-- The table `watchlists` with its indexes and foreign keys (db/migrations/00001_init_schema.sql), and
-- the statements of internal/feature/watchlist/sqlc. Of `users` and `symbols` the keys are enough.
use stock_backend.Prelude.{
  ℕ, suc, Bool, not, ◌&&◌, Option, List, [], ◌∷◌, map, String, ◌==◌, if◌then◌else◌, find_by, any,
  keep, update_where, count_by, nat_eq, string_eq, ℤ, negsuc, ltb, ltb_ℤ, int_eq,
}
use stock_backend.Database.{Result, ok, err}

pub record UserSymbol : Type 0 where
  pub id : ℕ
  pub user_id : ℕ
  pub symbol_code : String
  pub sort_key : ℤ

-- `next_id` is the sequence of the identity column.
pub record Tables : Type 0 where
  pub users : List ℕ
  pub symbols : List String
  pub watchlists : List UserSymbol
  pub next_id : ℕ

pub data Constraint : Type 0 where
  idx_watchlist_user_symbol idx_watchlist_user_sort_key : Constraint

-- The errors of errors.go, what the server reports, and a query that finds no row.
pub data Error : Type 0 where
  symbol_not_found already_in_watchlist not_in_watchlist reorder_codes_mismatch : Error
  unique_violation : Constraint → Error
  foreign_key_violation no_rows : Error
  driver : ℕ → Error

abbrev pub of_user : ℕ → UserSymbol → Bool
of_user user r = r.user_id == user

abbrev pub has_code : String → UserSymbol → Bool
has_code code r = r.symbol_code == code

abbrev pub of_symbol : ℕ → String → UserSymbol → Bool
of_symbol user code r = r.user_id == user && r.symbol_code == code

abbrev pub of_key : ℕ → ℤ → UserSymbol → Bool
of_key user key r = r.user_id == user && r.sort_key == key

abbrev pub new_row : ℕ → String → ℤ → Tables → UserSymbol
new_row user code key t = record {
  id = t.next_id;
  user_id = user;
  symbol_code = code;
  sort_key = key;
}

abbrev pub with_row : ℕ → String → ℤ → Tables → Tables
with_row user code key t = record t {
  watchlists = new_row user code key t ∷ t.watchlists;
  next_id = suc t.next_id;
}

abbrev pub has_references : ℕ → String → Tables → Bool
has_references user code t = any (λ u. u == user) t.users && any (λ s. s == code) t.symbols

-- The unique indexes are asked in the order of their creation, the foreign keys at the end.
unfoldable pub insert_watchlist : ℕ → String → ℤ → Tables → Result Error (Unit {0} × Tables)
insert_watchlist user code key t =
    if any (of_symbol user code) t.watchlists
    then err (unique_violation idx_watchlist_user_symbol)
    else if any (of_key user key) t.watchlists
    then err (unique_violation idx_watchlist_user_sort_key)
    else if has_references user code t
    then ok (tt, with_row user code key t)
    else err foreign_key_violation

-- The number of rows, and the rest.
unfoldable pub delete_watchlist : ℕ → String → Tables → ℕ × Tables
delete_watchlist user code t = (
  count_by (of_symbol user code) t.watchlists,
  record t { watchlists = keep (λ r. not (of_symbol user code r)) t.watchlists },
)

-- ORDER BY sort_key ASC
abbrev pub insert_by_key : UserSymbol → List UserSymbol → List UserSymbol
insert_by_key r [] = r ∷ []
insert_by_key r (s ∷ ss) =
    let rest = s ∷ insert_by_key r ss in if ltb_ℤ s.sort_key r.sort_key then rest else r ∷ s ∷ ss

unfoldable pub sort_by_key : List UserSymbol → List UserSymbol
sort_by_key [] = []
sort_by_key (r ∷ rs) = insert_by_key r (sort_by_key rs)

unfoldable pub list_watchlist_by_user : ℕ → Tables → List UserSymbol
unfolding sort_by_key
list_watchlist_by_user user t = sort_by_key (keep (of_user user) t.watchlists)

-- ORDER BY id
abbrev pub insert_id : ℕ → List ℕ → List ℕ
insert_id id [] = id ∷ []
insert_id id (other ∷ ids) =
    let rest = other ∷ insert_id id ids in if ltb other id then rest else id ∷ other ∷ ids

abbrev pub sort_ids : List ℕ → List ℕ
sort_ids [] = []
sort_ids (id ∷ ids) = insert_id id (sort_ids ids)

-- The rows that the statement locks.
unfoldable pub lock_watchlist_by_user : ℕ → Tables → List ℕ
lock_watchlist_by_user user t =
    sort_ids (map (λ r. UserSymbol.id r) (keep (of_user user) t.watchlists))

unfoldable pub lock_watchlist_user : ℕ → Tables → Option ℕ
lock_watchlist_user user t = find_by (λ u. u == user) t.users

-- COALESCE(MAX(sort_key), -1)
abbrev pub greatest : ℤ → List UserSymbol → ℤ
greatest key [] = key
greatest key (r ∷ rs) = greatest (if ltb_ℤ key r.sort_key then r.sort_key else key) rs

abbrev pub max_or : ℤ → List UserSymbol → ℤ
max_or key [] = key
max_or key (r ∷ rs) = greatest r.sort_key rs

unfoldable pub max_watchlist_sort_key : ℕ → Tables → ℤ
max_watchlist_sort_key user t = max_or (negsuc 0) (keep (of_user user) t.watchlists)

abbrev pub set_key : ℤ → UserSymbol → UserSymbol
set_key key r = record r { sort_key = key }

-- Another row of the user has the key.
abbrev pub key_taken : ℕ → String → ℤ → UserSymbol → Bool
key_taken user code key r = of_key user key r && not (r.symbol_code == code)

-- An index over (user_id, symbol_code) leaves one row at most; its new key must be free.
unfoldable pub update_watchlist_sort_key : ℕ → String → ℤ → Tables → Result Error (ℕ × Tables)
update_watchlist_sort_key user code key t =
    if any (of_symbol user code) t.watchlists && any (key_taken user code key) t.watchlists
    then err (unique_violation idx_watchlist_user_sort_key)
    else ok (
      count_by (of_symbol user code) t.watchlists,
      record t { watchlists = update_where (of_symbol user code) (set_key key) t.watchlists },
    )

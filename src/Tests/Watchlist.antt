-- ===== src/Tests/Watchlist.antt =====
-- A user's watchlist of two symbols, and a listing of three.
use stock_backend.Prelude.{
  succ_int64, arith, ◌≡◌, ◌≢◌, refl, false, true, none, some, List, [], ◌∷◌, String, string_eq, map,
  Distinct, pos, max_int64, ◌++◌, ◌⊎◌, ◌↔◌,
}
use stock_backend.Database.{ok, Conn}
use stock_backend.Database.Agrees.{Agrees}
use stock_backend.Watchlist.Store.{
  Tables, UserSymbol, driver, insert_watchlist, delete_watchlist, list_watchlist_by_user,
  lock_watchlist_user, lock_watchlist_by_user, update_watchlist_sort_key, max_watchlist_sort_key,
  with_row,
}
use stock_backend.Watchlist.Repository.{
  add_with_next_sort_key, add_locked, insert_next, mapped, update_sort_keys, remove, removed,
}
use stock_backend.Watchlist.Service.{
  symbol_exists, add_existing, add_symbol, remove_symbol, reorder_symbols, entries_from,
  codes_match,
}
use stock_backend.Watchlist.Order.{Known}
use stock_backend.Watchlist.Invariant.{IsValid}
use stock_backend.Watchlist.History.{Reachable, initial, added, Reachable-IsValid}
use stock_backend.Watchlist.Removing.{dropped, remove_symbol-Agrees}
use stock_backend.Watchlist.Matching.{codes_match_iff}
use stock_backend.Watchlist.Reorder.{reordered, update_sort_keys-Agrees}
use stock_backend.Watchlist.Interleaving.{Reordered, Refused, reorder_symbols_outcome}
use stock_backend.WatchlistHttp.Handler.{reorder}
use stock_backend.WatchlistHttp.Reordering.{Done, NotDone, reorder_status}
use stock_backend.Watchlist.Acceptance.{reorder_symbols_accepts}
use stock_backend.Watchlist.Adding.{added as added_tables, next_key, add_symbol-Agrees}
use stock_backend.Watchlist.Growth.{list-with_row}
use stock_backend.Watchlist.RoundTrip.{remove_symbol-add_symbol}

abbrev opened : Tables
opened = record { users = 1 ∷ []; symbols = "A" ∷ "B" ∷ "C" ∷ []; watchlists = []; next_id = 1 }

abbrev start : Conn Tables
start = record { durable = opened; working = opened; calls = 0; fault = λ n. none }

abbrev one : Conn Tables
one = (add_symbol 1 "A" start).1

abbrev two : Conn Tables
two = (add_symbol 1 "B" one).1

room : max_watchlist_sort_key 1 opened ≢ pos max_int64
unfolding max_watchlist_sort_key
room e = cc

room_for_two : max_watchlist_sort_key 1 one.durable ≢ pos max_int64
unfolding max_watchlist_sort_key add_symbol symbol_exists add_existing add_with_next_sort_key
    add_locked insert_next mapped insert_watchlist lock_watchlist_user succ_int64
room_for_two e = ground arith

first_added : Reachable one.durable
first_added = added 1 "A" start (initial (1 ∷ []) ("A" ∷ "B" ∷ "C" ∷ [])) room

both_added : Reachable two.durable
both_added = added 1 "B" one first_added room_for_two

Reachable-IsValid_example : IsValid two.durable
Reachable-IsValid_example = Reachable-IsValid two.durable both_added

abbrev swapped : List String
swapped = "B" ∷ "A" ∷ []

swapped-Distinct : Distinct (λ s. s) swapped
swapped-Distinct =
    ((λ e. let no : false ≡ true = (string_eq.beq_iff "A" "B").1 e in cc, tt), (tt, tt))

reorder_symbols_outcome_example :
    Reordered 1 swapped two two.durable (reorder_symbols 1 swapped (λ t. t) two)
    ⊎ Refused 1 swapped two two.durable (reorder_symbols 1 swapped (λ t. t) two)
reorder_symbols_outcome_example =
    reorder_symbols_outcome 1 swapped (λ t. t) two (Reachable-IsValid two.durable both_added)

update_sort_keys-Agrees_example :
    Agrees driver two
      (update_sort_keys 1 (entries_from 0 swapped) two)
      (reordered 1 swapped two.durable)
update_sort_keys-Agrees_example =
    update_sort_keys-Agrees 1 swapped two (Reachable-IsValid two.durable both_added)
      swapped-Distinct

reorder_status_example :
    Done 1 swapped (λ t. t) two (reorder (some 1) (some swapped) (λ t. t) two)
    ⊎ NotDone 1 swapped (λ t. t) two (reorder (some 1) (some swapped) (λ t. t) two)
reorder_status_example =
    reorder_status 1 swapped (λ t. t) two (Reachable-IsValid two.durable both_added)

answers_bad_code : (reorder (some 1) (some ("A B" ∷ [])) (λ t. t) two).0.status ≡ 400
unfolding reorder
answers_bad_code = refl

reorder_symbols_accepts_example : (reorder_symbols 1 swapped (λ t. t) two).0 ≡ ok tt
unfolding max_watchlist_sort_key add_symbol symbol_exists add_existing add_with_next_sort_key
    add_locked insert_next mapped insert_watchlist lock_watchlist_user succ_int64
reorder_symbols_accepts_example =
    reorder_symbols_accepts 1 swapped two (Reachable-IsValid two.durable both_added) (λ n. refl)
      swapped-Distinct refl (refl, (refl, tt))

codes_match_iff_example :
    (codes_match (list_watchlist_by_user 1 two.durable) [] swapped ≡ true)
    ↔ (Distinct (λ s. s) swapped × Known (list_watchlist_by_user 1 two.durable) swapped)
codes_match_iff_example = codes_match_iff (list_watchlist_by_user 1 two.durable) swapped

add_symbol-Agrees_example :
    Agrees driver one (add_symbol 1 "B" one) (added_tables 1 "B" one.durable)
add_symbol-Agrees_example =
    add_symbol-Agrees 1 "B" one (Reachable-IsValid one.durable first_added) room_for_two

remove_symbol-Agrees_example :
    Agrees driver one (remove_symbol 1 "A" one) (dropped 1 "A" one.durable)
remove_symbol-Agrees_example = remove_symbol-Agrees 1 "A" one

list-with_row_example :
    map
      (λ r. UserSymbol.symbol_code r)
      (list_watchlist_by_user 1 (with_row 1 "B" (next_key 1 one.durable) one.durable))
    ≡ map (λ r. UserSymbol.symbol_code r) (list_watchlist_by_user 1 one.durable) ++ ("B" ∷ [])
list-with_row_example =
    list-with_row 1 "B" one.durable (Reachable-IsValid one.durable first_added) room_for_two

remove_symbol-add_symbol_example :
    (remove_symbol 1 "B" (add_symbol 1 "B" one).1).1.durable.watchlists ≡ one.durable.watchlists
unfolding max_watchlist_sort_key add_symbol symbol_exists add_existing add_with_next_sort_key
    add_locked insert_next mapped insert_watchlist lock_watchlist_user succ_int64 remove_symbol
    remove removed delete_watchlist
remove_symbol-add_symbol_example =
    remove_symbol-add_symbol 1 "B" one (Reachable-IsValid one.durable first_added) room_for_two refl
      refl

-- A run of each, computed.
lists_swapped :
    map
      (λ r. UserSymbol.symbol_code r)
      (list_watchlist_by_user 1 (reorder_symbols 1 swapped (λ t. t) two).1.durable)
    ≡ swapped
unfolding max_watchlist_sort_key add_symbol symbol_exists add_existing add_with_next_sort_key
    add_locked insert_next mapped insert_watchlist lock_watchlist_user succ_int64
    list_watchlist_by_user reorder_symbols lock_watchlist_by_user update_watchlist_sort_key
lists_swapped = refl

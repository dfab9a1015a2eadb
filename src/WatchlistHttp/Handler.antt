-- ===== src/WatchlistHttp/Handler.antt =====
-- The handlers of internal/feature/watchlist/watchlisthttp/handler.go. The user is the context's;
-- `DecodeJSON` answers nothing for a body that is refused.
use stock_backend.Prelude.{
  ℕ, Bool, true, not, ◌&&◌, ◌||◌, Option, none, some, List, [], ◌∷◌, map, String, ◌==◌,
  if◌then◌else◌, length, any, leb, nat_eq, string_eq, ℤ,
}
use stock_backend.Database.{Result, ok, err, Conn}
use stock_backend.Transport.Jwt.{codes}
use stock_backend.Watchlist.Store.{
  UserSymbol, Tables, Error, symbol_not_found, already_in_watchlist, not_in_watchlist,
  reorder_codes_mismatch,
}
use stock_backend.Watchlist.Service.{list_user_symbols, add_symbol, remove_symbol, reorder_symbols}

-- [A-Za-z0-9._-]
abbrev pub symbol_char : ℕ → Bool
symbol_char c =
    (leb b'A' c && leb c b'Z')
    || (leb b'a' c && leb c b'z')
    || (leb b'0' c && leb c b'9')
    || c == b'.'
    || c == b'_'
    || c == b'-'

abbrev pub all_symbol_chars : List ℕ → Bool
all_symbol_chars [] = true
all_symbol_chars (c ∷ cs) = symbol_char c && all_symbol_chars cs

-- `symbolCodePattern`: from 1 to 20 of these, and nothing else.
unfoldable pub symbol_code_pattern : String → Bool
symbol_code_pattern s =
    leb 1 (length (codes s)) && leb (length (codes s)) 20 && all_symbol_chars (codes s)

pub record WatchlistItem : Type 0 where
  pub id : ℕ
  pub symbol_code : String
  pub sort_key : ℤ

pub data Body : Type 0 where
  no_content : Body
  error message : String → Body
  items : List WatchlistItem → Body

pub record Response : Type 0 where
  pub status : ℕ
  pub body : Body

abbrev pub respond : ℕ → Body → Response
respond status body = record { status = status; body = body }

abbrev pub internal_error : Response
internal_error = respond 500 (error "internal server error")

abbrev pub item : UserSymbol → WatchlistItem
item r = record { id = r.id; symbol_code = r.symbol_code; sort_key = r.sort_key }

abbrev pub answered :
    {A : Type 0}
    → (Result Error A → Response)
    → Result Error A × Conn Tables
    → Response × Conn Tables
answered f (r, c) = (f r, c)

unfoldable pub list_answer : Result Error (List UserSymbol) → Response
list_answer (ok entries) = respond 200 (items (map item entries))
list_answer (err e) = internal_error

unfoldable pub list : Option ℕ → Conn Tables → Response × Conn Tables
unfolding list_answer
list none c = (internal_error, c)
list (some user) c = answered list_answer (list_user_symbols user c)

unfoldable pub add_answer : Result Error (Unit {0}) → Response
add_answer (ok u) = respond 201 (message "added to watchlist")
add_answer (err symbol_not_found) = respond 404 (error "symbol not found")
add_answer (err already_in_watchlist) = respond 409 (error "symbol already in watchlist")
add_answer (err e) = internal_error

unfoldable pub add : Option ℕ → Option String → Conn Tables → Response × Conn Tables
unfolding add_answer symbol_code_pattern
add none body c = (internal_error, c)
add (some user) none c = (respond 400 (error "invalid request"), c)
add (some user) (some symbol_code) c =
    if not (symbol_code_pattern symbol_code)
    then (respond 400 (error "invalid symbol code"), c)
    else answered add_answer (add_symbol user symbol_code c)

unfoldable pub remove_answer : Result Error (Unit {0}) → Response
remove_answer (ok u) = respond 204 no_content
remove_answer (err not_in_watchlist) = respond 404 (error "symbol not in watchlist")
remove_answer (err e) = internal_error

unfoldable pub remove : Option ℕ → String → Conn Tables → Response × Conn Tables
unfolding remove_answer symbol_code_pattern
remove none symbol_code c = (internal_error, c)
remove (some user) symbol_code c =
    if not (symbol_code_pattern symbol_code)
    then (respond 400 (error "invalid symbol code"), c)
    else answered remove_answer (remove_symbol user symbol_code c)

unfoldable pub reorder_answer : Result Error (Unit {0}) → Response
reorder_answer (ok u) = respond 204 no_content
reorder_answer (err reorder_codes_mismatch) =
    respond 400 (error "reorder codes do not match watchlist")
reorder_answer (err e) = internal_error

unfoldable pub reorder :
    Option ℕ → Option (List String) → (Tables → Tables) → Conn Tables → Response × Conn Tables
unfolding reorder_answer symbol_code_pattern
reorder none body meanwhile c = (internal_error, c)
reorder (some user) none meanwhile c = (respond 400 (error "invalid request"), c)
reorder (some user) (some codes) meanwhile c =
    if any (λ s. not (symbol_code_pattern s)) codes
    then (respond 400 (error "invalid symbol code"), c)
    else answered reorder_answer (reorder_symbols user codes meanwhile c)

-- ===== src/Watchlist/Adding.antt =====
-- `AddWithNextSortKey`, `Remove` and `AddSymbol` (internal/feature/watchlist) as functions on the
-- tables.
use stock_backend.Prelude.{
  ℕ, suc, ◌≡◌, ◌≢◌, refl, inl, inr, true, false, not, Option, none, some, Option-cases, List, [],
  ◌∷◌, String, ◌==◌, if◌then◌else◌, any, find_by, find_by-none, find_by-some, All, Bool-cases,
  nat_eq, string_eq, int_eq, ℤ, pos, negsuc, max_int64, succ_int64,
}
use stock_backend.Database.{
  Result, ok, err, Conn, pure, query, commit, continue, applied, inspect, ◌>>=◌, ◌>>◌,
}
use stock_backend.Database.Agrees.{
  Agrees, Agrees-autocommit, Agrees-begin, Agrees-commit, Agrees-statement,
}
use stock_backend.Watchlist.Store.{
  UserSymbol, Tables, Error, symbol_not_found, already_in_watchlist, no_rows, driver, of_user,
  of_symbol, of_key, with_row, insert_watchlist, lock_watchlist_user, max_watchlist_sort_key,
}
use stock_backend.Watchlist.Repository.{
  map_watchlist_pg_err, mapped, insert_next, add_locked, add_with_next_sort_key,
}
use stock_backend.Watchlist.Service.{add_symbol, symbol_exists, add_existing}
use stock_backend.Watchlist.Keys.{AtMost, max_or_bounds, succ_int64_above, ltb_ℤ_ne}
use stock_backend.Watchlist.Invariant.{IsPos, IsValid, rows_of}
use stock_backend.Watchlist.Rewriting.{conn}

abbrev pub next_key : ℕ → Tables → ℤ
next_key user t = succ_int64 (max_watchlist_sort_key user t)

-- An insertion with its error as the caller sees it; one that fails leaves the tables.
unfoldable pub inserted :
    Tables → Result Error (Unit {0} × Tables) → Result Error (Unit {0}) × Tables
inserted t (ok (u, t')) = (ok u, t')
inserted t (err e) = (err (map_watchlist_pg_err e), t)

-- A user who is there gets the symbol behind the others.
unfoldable pub appended : ℕ → String → Tables → Option ℕ → Result Error (Unit {0}) × Tables
unfolding inserted
appended user code t none = (err no_rows, t)
appended user code t (some id) = inserted t (insert_watchlist user code (next_key user t) t)

module _ (t : Tables) (fault : ℕ → Option ℕ) (user : ℕ) (code : String) where
  inserted-Agrees :
      (n : ℕ) (r : Result Error (Unit {0} × Tables))
      → Agrees driver
          (conn t fault t n)
          (continue
            (λ _. do commit driver; pure tt)
            (inspect mapped (applied (conn t fault t n) r)))
          (inserted t r)
  unfolding inserted mapped
  inserted-Agrees n (ok (u, t')) = Agrees-commit driver (conn t fault t' (suc n)) (ok tt) t' refl
  inserted-Agrees n (err e) = inr (refl, refl)

  insert_next-Agrees :
      (n : ℕ)
      → Agrees driver
          (conn t fault t n)
          (insert_next user code (max_watchlist_sort_key user t) (conn t fault t n))
          (inserted t (insert_watchlist user code (next_key user t) t))
  unfolding insert_next mapped map_watchlist_pg_err
  insert_next-Agrees n = elim (Option-cases (fault n)) [
    | inl e ↦ rw e (inserted-Agrees n (insert_watchlist user code (next_key user t) t))
    | inr (x, e) ↦ rw e (inl (n, x, e, refl, refl))
  ]

  add_locked-Agrees :
      (n : ℕ) (found : Option ℕ)
      → Agrees driver
          (conn t fault t n)
          (add_locked user code found (conn t fault t n))
          (appended user code t found)
  unfolding add_locked appended
  add_locked-Agrees n none = inr (refl, refl)
  add_locked-Agrees n (some id) =
      Agrees-statement driver (conn t fault t n) (λ d. ok (max_watchlist_sort_key user d, d))
        (insert_next user code) _ (insert_next-Agrees (suc n))

pub add_with_next_sort_key-Agrees :
    (user : ℕ) (code : String) (c : Conn Tables)
    → Agrees driver c
        (add_with_next_sort_key user code c)
        (appended user code c.durable (lock_watchlist_user user c.durable))
unfolding add_with_next_sort_key
add_with_next_sort_key-Agrees user code c =
    Agrees-begin driver c
      (do found ← query driver (lock_watchlist_user user); add_locked user code found) _
      (Agrees-statement driver (conn c.durable c.fault c.durable (suc c.calls))
        (λ t. ok (lock_watchlist_user user t, t)) (add_locked user code) _
        (add_locked-Agrees c.durable c.fault user code (suc (suc c.calls))
          (lock_watchlist_user user c.durable)))

-- The answer of `AddSymbol` on tables that nothing else changes, without the indexes.
unfoldable pub added : ℕ → String → Tables → Result Error (Unit {0}) × Tables
added user code t =
    if not (any (λ s. s == code) t.symbols)
    then (err symbol_not_found, t)
    else if not (any (λ u. u == user) t.users)
    then (err no_rows, t)
    else if any (of_symbol user code) t.watchlists
    then (err already_in_watchlist, t)
    else (ok tt, with_row user code (next_key user t) t)

-- The key behind the others is in no row of the user.
key_unused :
    (user : ℕ) (k : ℤ) (ws : List UserSymbol)
    → All (λ r. IsPos r.sort_key) ws
    → All (λ r. AtMost r.sort_key k) (rows_of user ws)
    → k ≢ pos max_int64
    → any (of_key user (succ_int64 k)) ws ≡ false
key_unused user k [] h b ne = refl
key_unused user k (r ∷ ws) h b ne = elim (Bool-cases (of_user user r)) [
  | inl e ↦
      let bounds : AtMost r.sort_key k × All (λ s. AtMost s.sort_key k) (rows_of user ws) =
        rw e at b in
      let below = succ_int64_above r.sort_key k h.0 bounds.0 ne in
      rw (e, ltb_ℤ_ne r.sort_key (succ_int64 k) below) (key_unused user k ws h.1 bounds.1 ne)
  | inr e ↦ rw e (key_unused user k ws h.1 (rw e at b) ne)
]

module _ (user : ℕ) (code : String) (t : Tables) (valid : IsValid t)
    (ne : max_watchlist_sort_key user t ≢ pos max_int64)
    (listed : any (λ s. s == code) t.symbols ≡ true) where
  pub unused : any (of_key user (next_key user t)) t.watchlists ≡ false
  unfolding max_watchlist_sort_key
  unused =
      key_unused user (max_watchlist_sort_key user t) t.watchlists valid.keys_from_zero
        (max_or_bounds (negsuc 0) (rows_of user t.watchlists)) ne

  appended-added : appended user code t (lock_watchlist_user user t) ≡ added user code t
  unfolding appended added lock_watchlist_user insert_watchlist inserted map_watchlist_pg_err
  appended-added = elim (Option-cases (find_by (λ u. u == user) t.users)) [
    | inl e ↦ rw (e, listed, find_by-none (λ u. u == user) t.users e) refl
    | inr (u, e) ↦
        let there : any (λ v. v == user) t.users ≡ true = find_by-some (λ v. v == user) t.users e in
        elim (Bool-cases (any (of_symbol user code) t.watchlists)) [
          | inl f ↦ rw (e, listed, there, f) refl
          | inr f ↦ rw (e, listed, there, f, unused) refl
        ]
  ]

unlisted :
    (user : ℕ) (code : String) (t : Tables)
    → any (λ s. s == code) t.symbols ≡ false
    → added user code t ≡ (err symbol_not_found, t)
unfolding added
unlisted user code t e = rw e refl

add_existing-Agrees :
    (user : ℕ) (code : String) (c : Conn Tables)
    → IsValid c.durable
    → max_watchlist_sort_key user c.durable ≢ pos max_int64
    → Agrees driver c
        (add_existing user code (any (λ s. s == code) c.durable.symbols) c)
        (added user code c.durable)
unfolding add_existing
add_existing-Agrees user code c valid ne =
    elim (Bool-cases (any (λ s. s == code) c.durable.symbols)) [
      | inl e ↦
          rw (e, ← appended-added user code c.durable valid ne e)
            (add_with_next_sort_key-Agrees user code c)
      | inr e ↦ rw (e, unlisted user code c.durable e) (inr (refl, refl))
    ]

-- On valid tables with a key left, adding a symbol answers: an unlisted symbol is not found, an unknown
-- user has no row, a symbol of the watchlist is there already, and any other is added with the key
-- behind the user's others, no insertion meeting a duplicate key; or a call failed and the tables are
-- as they were.
pub add_symbol-Agrees :
    (user : ℕ) (code : String) (c : Conn Tables)
    → IsValid c.durable
    → max_watchlist_sort_key user c.durable ≢ pos max_int64
    → Agrees driver c (add_symbol user code c) (added user code c.durable)
unfolding add_symbol symbol_exists
add_symbol-Agrees user code c valid ne =
    Agrees-autocommit driver c (λ t. ok (any (λ s. s == code) t.symbols, t))
      (add_existing user code) _
      (add_existing-Agrees user code (record c { working = c.durable; calls = suc c.calls }) valid
        ne)

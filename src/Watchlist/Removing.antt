-- ===== src/Watchlist/Removing.antt =====
-- `Remove` (internal/feature/watchlist/repository.go) as a function on the tables.
use stock_backend.Prelude.{
  ℕ, ◌≡◌, refl, inl, inr, Bool, true, false, not, List, [], ◌∷◌, String, ◌==◌, if◌then◌else◌, any,
  count_by, keep, keep_all, count_by-none, All-keep, Distinct-keep, Bool-cases, nat_eq, string_eq,
  int_eq, arith,
}
use stock_backend.Database.{Result, ok, err, Conn, continue, settled, applied}
use stock_backend.Database.Agrees.{Agrees, Agrees-autocommit}
use stock_backend.Watchlist.Store.{
  UserSymbol, Tables, Error, not_in_watchlist, driver, of_symbol, delete_watchlist,
}
use stock_backend.Watchlist.Repository.{remove, removed}
use stock_backend.Watchlist.Service.{remove_symbol}
use stock_backend.Watchlist.Invariant.{IsValid}

abbrev pub without : ℕ → String → Tables → Tables
without user code t = record t { watchlists = keep (λ r. not (of_symbol user code r)) t.watchlists }

-- The answer of `RemoveSymbol`.
unfoldable pub dropped : ℕ → String → Tables → Result Error (Unit {0}) × Tables
dropped user code t =
    if any (of_symbol user code) t.watchlists
    then (ok tt, without user code t)
    else (err not_in_watchlist, t)

count_by-any :
    (p : UserSymbol → Bool) (ws : List UserSymbol) → any p ws ≡ true → count_by p ws == 0 ≡ false
count_by-any p [] h = cc
count_by-any p (r ∷ ws) h = ground (arith, count_by-any p ws)

module _ (user : ℕ) (code : String) (c : Conn Tables) where
  deleted-Agrees :
      Agrees driver c
        (continue
          (λ n. removed n)
          (settled (
            applied
              (record c { working = c.durable })
              (ok (delete_watchlist user code c.durable)))))
        (dropped user code c.durable)
  unfolding removed dropped delete_watchlist
  deleted-Agrees = elim (Bool-cases (any (of_symbol user code) c.durable.watchlists)) [
    | inl f ↦ rw (f, count_by-any (of_symbol user code) c.durable.watchlists f) (inr (refl, refl))
    | inr f ↦
        let none_there : count_by (of_symbol user code) c.durable.watchlists ≡ 0 =
          count_by-none _ _ c.durable.watchlists (λ _ h. h) f in
        rw (f, none_there, keep_all (of_symbol user code) c.durable.watchlists f) (inr (refl, refl))
  ]

  -- A removal deletes the user's row of the symbol, or answers that there is none and changes nothing; or
  -- the call failed and the tables are as they were.
  pub remove_symbol-Agrees :
      Agrees driver c (remove_symbol user code c) (dropped user code c.durable)
  unfolding remove_symbol remove
  remove_symbol-Agrees =
      Agrees-autocommit driver c (λ t. ok (delete_watchlist user code t)) (λ n. removed n) _
        deleted-Agrees

pub without-IsValid :
    (user : ℕ) (code : String) (t : Tables) → IsValid t → IsValid (without user code t)
without-IsValid user code t valid = record {
  one_per_code = Distinct-keep _ _ t.watchlists valid.one_per_code;
  one_per_key = Distinct-keep _ _ t.watchlists valid.one_per_key;
  keys_from_zero = All-keep _ _ t.watchlists valid.keys_from_zero;
}

pub dropped-IsValid :
    (user : ℕ) (code : String) (t : Tables) → IsValid t → IsValid (dropped user code t).1
unfolding dropped
dropped-IsValid user code t valid = elim (Bool-cases (any (of_symbol user code) t.watchlists)) [
  | inl e ↦ rw e (without-IsValid user code t valid)
  | inr e ↦ rw e valid
]

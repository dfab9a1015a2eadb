-- ===== src/Watchlist/Listing.antt =====
-- The listing of a user's rows after `UpdateSortKeys`.
use stock_backend.Prelude.{
  ℕ, ◌≡◌, sym, inl, inr, true, List, map, String, ◌==◌, length, keep-update_where, All-of_keep,
  All-update_where, Distinct, Distinct-update_where, Bool-cases, nat_eq, nat_beq_iff, string_eq,
  pos,
}
use stock_backend.Database.{ok, err}
use stock_backend.Watchlist.Store.{
  UserSymbol, Tables, of_user, list_watchlist_by_user, reorder_codes_mismatch,
}
use stock_backend.Watchlist.Order.{place, Covered, Known-Covered}
use stock_backend.Watchlist.Sorting.{sort_by_key-place}
use stock_backend.Watchlist.Places.{of_user-place, knows-Known}
use stock_backend.Watchlist.Rewriting.{knows, rekeyed}
use stock_backend.Watchlist.Invariant.{IsPos, IsValid, rows_of, Distinct-rows_of}
use stock_backend.Watchlist.Apart.{code-place, place-IsPos, moved-Distinct}
use stock_backend.Watchlist.Reorder.{reordered}

module _ (user : ℕ) (codes : List String) (t : Tables) (valid : IsValid t)
    (dc : Distinct (λ s. s) codes) where
  covered :
      length (rows_of user t.watchlists) == length codes ≡ true
      → knows (rows_of user t.watchlists) codes ≡ true
      → Covered codes (rows_of user t.watchlists)
  covered e known =
      Known-Covered codes _ dc (Distinct-rows_of _ user t.watchlists valid.one_per_code)
        (knows-Known _ codes known)
        (sym ((nat_beq_iff (length (rows_of user t.watchlists)) (length codes)).0 e))

  rekeyed-IsValid :
      Covered codes (rows_of user t.watchlists) → IsValid (rekeyed user (place pos 0 codes) t)
  rekeyed-IsValid h = record {
    one_per_code =
        Distinct-update_where _ (of_user user) (place pos 0 codes) (code-place pos 0 codes)
          t.watchlists valid.one_per_code;
    one_per_key =
        moved-Distinct user codes t.watchlists (All-of_keep _ (of_user user) t.watchlists h)
          valid.one_per_code valid.one_per_key;
    keys_from_zero =
        All-update_where (λ r. IsPos r.sort_key) (of_user user) (place pos 0 codes)
          (λ r _. place-IsPos 0 codes r) t.watchlists valid.keys_from_zero;
  }

  -- The reordered tables are valid where the tables are.
  pub reordered-IsValid : IsValid (reordered user codes t).1
  unfolding reordered
  reordered-IsValid = elim (Bool-cases (length (rows_of user t.watchlists) == length codes)) [
    | inl e ↦ elim (Bool-cases (knows (rows_of user t.watchlists) codes)) [
      | inl f ↦ rw (e, f) (rekeyed-IsValid (covered e f))
      | inr f ↦ rw (e, f) valid
    ]
    | inr e ↦ rw e valid
  ]

  rekeyed_listing :
      knows (rows_of user t.watchlists) codes ≡ true
      → Covered codes (rows_of user t.watchlists)
      → map
          (λ r. UserSymbol.symbol_code r)
          (list_watchlist_by_user user (rekeyed user (place pos 0 codes) t))
        ≡ codes
  unfolding list_watchlist_by_user
  rekeyed_listing known h =
      rw
        (keep-update_where (of_user user) (place pos 0 codes) (of_user-place pos 0 codes user)
          t.watchlists)
        (sort_by_key-place 0 codes (rows_of user t.watchlists) dc
          (Distinct-rows_of _ user t.watchlists valid.one_per_code) (knows-Known _ codes known) h)

  -- A reordering that is accepted leaves a listing in the order of the codes.
  pub list-reordered :
      (reordered user codes t).0 ≡ ok tt
      → map (λ r. UserSymbol.symbol_code r) (list_watchlist_by_user user (reordered user codes t).1)
        ≡ codes
  unfolding reordered
  list-reordered accepted = elim (Bool-cases (length (rows_of user t.watchlists) == length codes)) [
    | inl e ↦ elim (Bool-cases (knows (rows_of user t.watchlists) codes)) [
      | inl f ↦ rw (e, f) (rekeyed_listing f (covered e f))
      | inr f ↦ absurd (let no : err reorder_codes_mismatch ≡ ok tt = rw (e, f) at accepted in cc)
    ]
    | inr e ↦ absurd (let no : err reorder_codes_mismatch ≡ ok tt = rw e at accepted in cc)
  ]

-- ===== src/Watchlist/Reorder.antt =====
-- `UpdateSortKeys` (internal/feature/watchlist/repository.go) with the keys that `ReorderSymbols`
-- gives it: the code at place i gets the key i.
use stock_backend.Prelude.{
  ℕ, suc, ◌<◌, ◌≡◌, refl, sym, ap, ◌∙◌, inl, inr, true, false, ◌&&◌, Option, List, [], ◌∷◌, map,
  String, ◌==◌, if◌then◌else◌, length, length-map, All-map, All-of_keep, update_where_twice,
  any-update_where, count_by-update_where, All-of_update_where, Distinct, Bool-cases, nat_eq,
  nat_beq_iff, string_eq, int_eq, ℤ, pos, negsuc, arith,
}
use stock_backend.Database.{Result, ok, err, Conn, pure, commit, query, ◌>>=◌, ◌>>◌}
use stock_backend.Database.Agrees.{Agrees, Agrees-begin, Agrees-commit, Agrees-statement}
use stock_backend.Watchlist.Store.{
  UserSymbol, Tables, Error, reorder_codes_mismatch, driver, has_code, of_user, of_symbol,
  lock_watchlist_by_user,
}
use stock_backend.Watchlist.Repository.{write_keys, update_locked, update_sort_keys}
use stock_backend.Watchlist.Service.{entries_from}
use stock_backend.Watchlist.Order.{place, in_codes, Known, Covered, Coded, Known-Covered}
use stock_backend.Watchlist.Places.{
  shift_keys-entries, entries_from-with, length-entries_from, length-sort_ids, of_user-place,
  of_symbol-place, place_twice, Known-knows,
}
use stock_backend.Watchlist.Rewriting.{entries_with, knows, rekeyed, Alike, conn, write_keys-Agrees}
use stock_backend.Watchlist.Invariant.{IsPos, IsValid, rows_of, Distinct-rows_of, Alike-rows_of}

-- The order that a list of codes asks for, where they are those of the user's rows.
unfoldable pub reordered : ℕ → List String → Tables → Result Error (Unit {0}) × Tables
reordered user codes t =
    if length (rows_of user t.watchlists) == length codes && knows (rows_of user t.watchlists) codes
    then (ok tt, rekeyed user (place pos 0 codes) t)
    else (err reorder_codes_mismatch, t)

-- Before the i-th key of the first loop is written, and of the second.
abbrev NegBelow : ℕ → ℤ → Type 0
NegBelow i (pos n) = Unit
NegBelow i (negsuc n) = n < i

abbrev PosBelow : ℕ → ℤ → Type 0
PosBelow i (pos n) = n < i
PosBelow i (negsuc n) = Unit

neg_fresh : (i : ℕ) (k : ℤ) → NegBelow i k → k == negsuc i ≡ false
neg_fresh i (pos n) h = refl
neg_fresh i (negsuc n) h = ground arith

neg_later : (i : ℕ) (k : ℤ) → NegBelow i k → NegBelow (suc i) k
neg_later i (pos n) h = tt
neg_later i (negsuc n) h = omega arith

pos_fresh : (i : ℕ) (k : ℤ) → PosBelow i k → k == pos i ≡ false
pos_fresh i (pos n) h = ground arith
pos_fresh i (negsuc n) h = refl

pos_later : (i : ℕ) (k : ℤ) → PosBelow i k → PosBelow (suc i) k
pos_later i (pos n) h = omega arith
pos_later i (negsuc n) h = tt

IsPos-NegBelow : (k : ℤ) → IsPos k → NegBelow 0 k
IsPos-NegBelow (pos n) h = tt
IsPos-NegBelow (negsuc n) h = absurd h

place_negative :
    (i : ℕ) (codes : List String) (r : UserSymbol)
    → in_codes codes r ≡ true
    → PosBelow 0 (place negsuc i codes r).sort_key
place_negative i [] r h = cc
place_negative i (code ∷ codes) r h = elim (Bool-cases (has_code code r)) [
  | inl e ↦ rw e tt
  | inr e ↦ rw e (place_negative (suc i) codes r (ground arith))
]

module _ (user : ℕ) (codes : List String) (t : Tables) (valid : IsValid t)
    (dc : Distinct (λ s. s) codes) (fault : ℕ → Option ℕ) where
  abbrev rows : List UserSymbol
  rows = rows_of user t.watchlists

  coded : Coded rows
  coded = Distinct-rows_of (λ r. UserSymbol.symbol_code r) user t.watchlists valid.one_per_code

  abbrev spec : Result Error (Unit {0}) × Tables
  spec = reordered user codes t

  finished-Agrees :
      (n : ℕ)
      → length rows == length codes ≡ true
      → knows rows codes ≡ true
      → Agrees driver
          (conn t fault t n)
          ((do commit driver; pure tt)
            (conn t fault
              (rekeyed user (place pos 0 codes) (rekeyed user (place negsuc 0 codes) t))
              n))
          spec
  unfolding reordered
  finished-Agrees n e known =
      rw (e, known)
        (Agrees-commit driver _ (ok tt) _ (
          ap (λ ws. record t { watchlists = ws })
            (update_where_twice (of_user user) (place pos 0 codes) (place negsuc 0 codes)
              (place pos 0 codes) (of_user-place negsuc 0 codes user)
              (place_twice negsuc pos 0 codes) t.watchlists)))

  covered : length rows == length codes ≡ true → Known rows codes → Covered codes rows
  covered e known =
      Known-Covered codes rows dc coded known (sym ((nat_beq_iff (length rows) (length codes)).0 e))

  Alike-rekeyed : (key : ℕ → ℤ) → Alike user rows (rekeyed user (place key 0 codes) t).watchlists
  Alike-rekeyed key code = (
    any-update_where (of_symbol user code) (place key 0 codes)
          (of_symbol-place key 0 codes user code) (of_user user) t.watchlists
        ∙ (Alike-rows_of user t.watchlists code).0,
    count_by-update_where (of_symbol user code) (place key 0 codes)
          (of_symbol-place key 0 codes user code) (of_user user) t.watchlists
        ∙ (Alike-rows_of user t.watchlists code).1,
  )

  matched-Agrees :
      (n : ℕ)
      → length rows == length codes ≡ true
      → Agrees driver
          (conn t fault t n)
          ((do
            write_keys user (entries_with negsuc 0 codes)
            write_keys user (entries_with pos 0 codes)
            commit driver
            pure tt)
            (conn t fault t n))
          spec
  unfolding reordered
  matched-Agrees n e =
      let bad : knows rows codes ≡ false → spec ≡ (err reorder_codes_mismatch, t) =
        λ h. rw (e, h) refl in
      write_keys-Agrees user negsuc NegBelow neg_fresh neg_later (λ i. omega arith) t fault rows
        coded spec (do write_keys user (entries_with pos 0 codes); commit driver; pure tt) codes 0 n
        t dc (Alike-rows_of user t.watchlists)
        (All-map _ _ (λ r p _. IsPos-NegBelow r.sort_key p) t.watchlists valid.keys_from_zero)
        (λ known m.
          write_keys-Agrees user pos PosBelow pos_fresh pos_later (λ i. omega arith) t fault rows
            coded spec (do commit driver; pure tt) codes 0 m (rekeyed user (place negsuc 0 codes) t)
            dc (Alike-rekeyed negsuc)
            (All-of_update_where (λ r. PosBelow 0 r.sort_key) (of_user user) (place negsuc 0 codes)
              t.watchlists
              (All-map _ _ (λ r h f. place_negative 0 codes r (h f)) t.watchlists
                (All-of_keep _ (of_user user) t.watchlists (covered e known))))
            (λ known m. finished-Agrees m e (Known-knows rows codes known)) bad)
        bad

  miscounted : length rows == length codes ≡ false → spec ≡ (err reorder_codes_mismatch, t)
  unfolding reordered
  miscounted e = rw e refl

  locked-Agrees :
      (n : ℕ)
      → Agrees driver
          (conn t fault t n)
          (update_locked user
            (entries_from 0 codes)
            (lock_watchlist_by_user user t)
            (conn t fault t n))
          spec
  unfolding update_locked lock_watchlist_by_user
  locked-Agrees n = elim (Bool-cases (length rows == length codes)) [
    | inl e ↦
        rw
          (
            length-sort_ids (map (λ r. UserSymbol.id r) rows),
            length-map rows (λ r. UserSymbol.id r),
            length-entries_from 0 codes,
            e,
            shift_keys-entries user 0 0 codes,
            entries_from-with 0 codes,
          )
          (matched-Agrees n e)
    | inr e ↦
        rw
          (
            length-sort_ids (map (λ r. UserSymbol.id r) rows),
            length-map rows (λ r. UserSymbol.id r),
            length-entries_from 0 codes,
            e,
            miscounted e,
          )
          (inr (refl, refl))
  ]

-- On valid tables, with distinct codes keyed from 0, the transaction ends in the reordered tables where
-- the codes are those of the user's rows, and otherwise with the mismatch error and the tables as they
-- were, no update having met a duplicate key; or a call failed and the tables are as they were.
pub update_sort_keys-Agrees :
    (user : ℕ) (codes : List String) (c : Conn Tables)
    → IsValid c.durable
    → Distinct (λ s. s) codes
    → Agrees driver c
        (update_sort_keys user (entries_from 0 codes) c)
        (reordered user codes c.durable)
unfolding update_sort_keys
update_sort_keys-Agrees user codes c valid dc =
    Agrees-begin driver c
      (do
        locked ← query driver (lock_watchlist_by_user user)
        update_locked user (entries_from 0 codes) locked)
      _
      (Agrees-statement driver (conn c.durable c.fault c.durable (suc c.calls))
        (λ t. ok (lock_watchlist_by_user user t, t)) (update_locked user (entries_from 0 codes)) _
        (locked-Agrees user codes c.durable valid dc c.fault (suc (suc c.calls))))

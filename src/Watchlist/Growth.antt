-- ===== src/Watchlist/Growth.antt =====
-- The table `watchlists` when a row is added: the invariant and the order of the listing.
use stock_backend.Prelude.{
  ℕ, ◌≡◌, ◌≢◌, refl, ap, inl, inr, true, false, List, [], ◌∷◌, ◌++◌, map, All-zip, beq_refl, ltb_ℤ,
  String, ◌==◌, any, All, All-zip, beq_refl, ltb_ℤ, All-keep, Bool-cases, nat_eq, nat_beq_iff,
  string_eq, int_eq, int_beq_iff, ℤ, pos, negsuc, max_int64, arith,
}
use stock_backend.Watchlist.Store.{
  UserSymbol, Tables, of_symbol, of_key, with_row, new_row, has_references, insert_watchlist,
  max_watchlist_sort_key, list_watchlist_by_user, sort_by_key,
}
use stock_backend.Watchlist.Invariant.{IsPos, IsValid, per_user, rows_of}
use stock_backend.Watchlist.Keys.{
  max_or_bounds, max_or-FromMinusOne, succ_int64-IsPos, succ_int64_above, insert_by_key_last,
}
use stock_backend.Watchlist.Sorting.{All-sort_by_key}
use stock_backend.Watchlist.Adding.{inserted, added, next_key, unused}

-- The indexes let no row in that they hold already.
absent_code :
    (user : ℕ) (code : String) (ws : List UserSymbol)
    → any (of_symbol user code) ws ≡ false
    → All (λ r. per_user (λ s. UserSymbol.symbol_code s) r ≢ (user, code)) ws
absent_code user code [] h = tt
absent_code user code (r ∷ ws) h = (
  λ e. ground (
    arith,
    (nat_beq_iff r.user_id user).1 (ap (λ p. p.0) e),
    (string_eq.beq_iff r.symbol_code code).1 (ap (λ p. p.1) e),
  ),
  absent_code user code ws (ground arith),
)

absent_key :
    (user : ℕ) (key : ℤ) (ws : List UserSymbol)
    → any (of_key user key) ws ≡ false
    → All (λ r. per_user (λ s. UserSymbol.sort_key s) r ≢ (user, key)) ws
absent_key user key [] h = tt
absent_key user key (r ∷ ws) h = (
  λ e. ground (
    arith,
    (nat_beq_iff r.user_id user).1 (ap (λ p. p.0) e),
    (int_beq_iff r.sort_key key).1 (ap (λ p. p.1) e),
  ),
  absent_key user key ws (ground arith),
)

pub with_row-IsValid :
    (user : ℕ) (code : String) (key : ℤ) (t : Tables)
    → IsValid t
    → IsPos key
    → any (of_symbol user code) t.watchlists ≡ false
    → any (of_key user key) t.watchlists ≡ false
    → IsValid (with_row user code key t)
with_row-IsValid user code key t valid p no_code no_key = record {
  one_per_code = (absent_code user code t.watchlists no_code, valid.one_per_code);
  one_per_key = (absent_key user key t.watchlists no_key, valid.one_per_key);
  keys_from_zero = (p, valid.keys_from_zero);
}

pub inserted-IsValid :
    (user : ℕ) (code : String) (key : ℤ) (t : Tables)
    → IsValid t
    → IsPos key
    → IsValid (inserted t (insert_watchlist user code key t)).1
unfolding insert_watchlist inserted
inserted-IsValid user code key t valid p =
    elim (Bool-cases (any (of_symbol user code) t.watchlists)) [
      | inl e ↦ rw e valid
      | inr e ↦ elim (Bool-cases (any (of_key user key) t.watchlists)) [
        | inl f ↦ rw (e, f) valid
        | inr f ↦ elim (Bool-cases (has_references user code t)) [
          | inl g ↦ rw (e, f, g) (with_row-IsValid user code key t valid p e f)
          | inr g ↦ rw (e, f, g) valid
        ]
      ]
    ]

pub next_key-IsPos :
    (user : ℕ) (t : Tables)
    → IsValid t
    → max_watchlist_sort_key user t ≢ pos max_int64
    → IsPos (next_key user t)
unfolding max_watchlist_sort_key
next_key-IsPos user t valid ne =
    succ_int64-IsPos (max_watchlist_sort_key user t)
      (max_or-FromMinusOne (rows_of user t.watchlists)
        (All-keep _ _ t.watchlists valid.keys_from_zero))
      ne

pub added-IsValid :
    (user : ℕ) (code : String) (t : Tables)
    → IsValid t
    → max_watchlist_sort_key user t ≢ pos max_int64
    → IsValid (added user code t).1
unfolding added
added-IsValid user code t valid ne = elim (Bool-cases (any (λ s. s == code) t.symbols)) [
  | inr e ↦ rw e valid
  | inl e ↦ elim (Bool-cases (any (λ u. u == user) t.users)) [
    | inr f ↦ rw (e, f) valid
    | inl f ↦ elim (Bool-cases (any (of_symbol user code) t.watchlists)) [
      | inl g ↦ rw (e, f, g) valid
      | inr g ↦
          rw (e, f, g)
            (with_row-IsValid user code (next_key user t) t valid (next_key-IsPos user t valid ne) g
              (unused user code t valid ne e))
    ]
  ]
]

-- The new row is behind all others of its user.
behind_others :
    (user : ℕ) (t : Tables)
    → IsValid t
    → max_watchlist_sort_key user t ≢ pos max_int64
    → All (λ r. ltb_ℤ r.sort_key (next_key user t) ≡ true) (rows_of user t.watchlists)
unfolding max_watchlist_sort_key
behind_others user t valid ne =
    All-zip _ _ _ (λ r p b. succ_int64_above r.sort_key (max_watchlist_sort_key user t) p b ne)
      (rows_of user t.watchlists) (All-keep _ _ t.watchlists valid.keys_from_zero)
      (max_or_bounds (negsuc 0) (rows_of user t.watchlists))

codes_append :
    (rows : List UserSymbol) (m : UserSymbol)
    → map (λ r. UserSymbol.symbol_code r) (rows ++ (m ∷ []))
      ≡ map (λ r. UserSymbol.symbol_code r) rows ++ (m.symbol_code ∷ [])
codes_append [] m = refl
codes_append (r ∷ rows) m = ap (λ cs. r.symbol_code ∷ cs) (codes_append rows m)

-- On valid tables with a key left, a row with the next key is listed behind all others of its user.
pub list-with_row :
    (user : ℕ) (code : String) (t : Tables)
    → IsValid t
    → max_watchlist_sort_key user t ≢ pos max_int64
    → map
        (λ r. UserSymbol.symbol_code r)
        (list_watchlist_by_user user (with_row user code (next_key user t) t))
      ≡ map (λ r. UserSymbol.symbol_code r) (list_watchlist_by_user user t) ++ (code ∷ [])
unfolding list_watchlist_by_user sort_by_key
list-with_row user code t valid ne =
    let sorted : List UserSymbol = sort_by_key (rows_of user t.watchlists) in
    let m : UserSymbol = new_row user code (next_key user t) t in
    let all =
      All-sort_by_key (λ r. ltb_ℤ r.sort_key (next_key user t) ≡ true) (rows_of user t.watchlists)
        (behind_others user t valid ne) in
    rw (beq_refl user, insert_by_key_last m sorted all) (codes_append sorted m)

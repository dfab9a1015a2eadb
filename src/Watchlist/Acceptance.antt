-- ===== src/Watchlist/Acceptance.antt =====
-- `ReorderSymbols` (internal/feature/watchlist/usecase.go) on tables that nothing else changes.
use stock_backend.Prelude.{
  ℕ, suc, ◌≡◌, refl, sym, ◌∙◌, ap, inl, inr, Bool, true, ◌||◌, none, some, List, [], ◌∷◌, String,
  ◌==◌, length, any, Distinct, Bool-cases, nat_eq, nat_beq_iff, string_eq, ltb_ℤ, arith, All-map,
}
use stock_backend.Database.{Result, ok, Conn, statement}
use stock_backend.Database.Agrees.{Agrees}
use stock_backend.Watchlist.Store.{
  UserSymbol, Tables, Error, driver, has_code, insert_by_key, sort_by_key, list_watchlist_by_user,
}
use stock_backend.Watchlist.Repository.{list_by_user, update_sort_keys}
use stock_backend.Watchlist.Service.{entries_from, reorder_existing, reorder_symbols}
use stock_backend.Watchlist.Order.{Known}
use stock_backend.Watchlist.Places.{Known-knows}
use stock_backend.Watchlist.Invariant.{IsValid, rows_of}
use stock_backend.Watchlist.Matching.{codes_match_iff}
use stock_backend.Watchlist.Reorder.{reordered, update_sort_keys-Agrees}

-- Sorting keeps the rows: as many, and each test is met as before.
any-insert_by_key :
    (p : UserSymbol → Bool) (r : UserSymbol) (rows : List UserSymbol)
    → any p (insert_by_key r rows) ≡ (p r || any p rows)
any-insert_by_key p r [] = refl
any-insert_by_key p r (s ∷ rows) = elim (Bool-cases (ltb_ℤ s.sort_key r.sort_key)) [
  | inl e ↦ rw e (ground (arith, any-insert_by_key p r rows))
  | inr e ↦ rw e refl
]

any-sort_by_key :
    (p : UserSymbol → Bool) (rows : List UserSymbol) → any p (sort_by_key rows) ≡ any p rows
unfolding sort_by_key
any-sort_by_key p [] = refl
any-sort_by_key p (r ∷ rows) =
    any-insert_by_key p r (sort_by_key rows) ∙ ap (λ b. p r || b) (any-sort_by_key p rows)

length-insert_by_key :
    (r : UserSymbol) (rows : List UserSymbol) → length (insert_by_key r rows) ≡ suc (length rows)
length-insert_by_key r [] = refl
length-insert_by_key r (s ∷ rows) = elim (Bool-cases (ltb_ℤ s.sort_key r.sort_key)) [
  | inl e ↦ rw e (ap suc (length-insert_by_key r rows))
  | inr e ↦ rw e refl
]

length-sort_by_key : (rows : List UserSymbol) → length (sort_by_key rows) ≡ length rows
unfolding sort_by_key
length-sort_by_key [] = refl
length-sort_by_key (r ∷ rows) =
    length-insert_by_key r (sort_by_key rows) ∙ ap suc (length-sort_by_key rows)

module _ (user : ℕ) (codes : List String) (c : Conn Tables) (valid : IsValid c.durable)
    (no_fault : (n : ℕ) → c.fault n ≡ none) (dc : Distinct (λ s. s) codes)
    (same : length codes ≡ length (rows_of user c.durable.watchlists))
    (known : Known (rows_of user c.durable.watchlists) codes) where
  rewritten : (reordered user codes c.durable).0 ≡ ok tt
  unfolding reordered
  rewritten =
      rw
        (
          sym same,
          (nat_beq_iff (length codes) (length codes)).1 refl,
          Known-knows (rows_of user c.durable.watchlists) codes known,
        )
        refl

  updated :
      (d : Conn Tables)
      → (run : Result Error (Unit {0}) × Conn Tables)
      → Agrees driver c run (reordered user codes c.durable)
      → run.0 ≡ ok tt
  updated d run (inl (n, x, failed, _, _)) =
      absurd (let no : none ≡ some x = sym (no_fault n) ∙ failed in cc)
  updated d run (inr (e, _)) = e ∙ rewritten

  -- On valid tables that nothing else changes and with no failed call, a list of distinct codes, as many
  -- as the user's rows and each that of a row, is accepted.
  pub reorder_symbols_accepts : (reorder_symbols user codes (λ t. t) c).0 ≡ ok tt
  unfolding reorder_symbols list_by_user reorder_existing list_watchlist_by_user
  reorder_symbols_accepts =
      let c' : Conn Tables = record c { working = c.durable; calls = suc c.calls } in
      let matching = (codes_match_iff (sort_by_key (rows_of user c.durable.watchlists)) codes).1 (
        dc,
        All-map _ _
            (λ code h. any-sort_by_key (has_code code) (rows_of user c.durable.watchlists) ∙ h)
            codes known,
      ) in
      let lengths : length codes == length (sort_by_key (rows_of user c.durable.watchlists))
          ≡ true =
        (nat_beq_iff (length codes) _).1
          (same ∙ sym (length-sort_by_key (rows_of user c.durable.watchlists))) in
      rw (no_fault c.calls, statement, lengths, matching)
        (updated c' (update_sort_keys user (entries_from 0 codes) c')
          (update_sort_keys-Agrees user codes c' valid dc))

-- ===== src/Watchlist/Sorting.antt =====
-- ORDER BY sort_key of rows whose keys are the places of their codes.
use stock_backend.Prelude.{
  ℕ, suc, ◌<◌, ◌≡◌, refl, ap, inl, inr, true, false, List, [], ◌∷◌, map, String, any, find_by, All,
  All-map, All-zip, All-mapped, All-none, find_by-none, Distinct, Distinct-keep, find_by_unique,
  keep_all, All-find_by, Bool-cases, Option-cases, nat_eq, string_eq, ℤ, pos, negsuc, ltb_ℤ, arith,
}
use stock_backend.Watchlist.Store.{UserSymbol, has_code, set_key, insert_by_key, sort_by_key}
use stock_backend.Watchlist.Order.{
  place, others, in_codes, Known, Covered, Coded, Known-others, none_behind, has_code_iff,
  Covered-others,
}

ltb_ℤ_asymm : (a b : ℤ) → ltb_ℤ a b ≡ true → ltb_ℤ b a ≡ false
ltb_ℤ_asymm (pos m) (pos n) h = ground arith
ltb_ℤ_asymm (pos m) (negsuc n) h = ground arith
ltb_ℤ_asymm (negsuc m) (pos n) h = ground arith
ltb_ℤ_asymm (negsuc m) (negsuc n) h = ground arith

abbrev Before : UserSymbol → UserSymbol → Type 0
Before m r = ltb_ℤ m.sort_key r.sort_key ≡ true

insert_by_key_least :
    (m : UserSymbol) (rows : List UserSymbol)
    → All (Before m) rows
    → insert_by_key m rows ≡ m ∷ rows
insert_by_key_least m [] h = refl
insert_by_key_least m (r ∷ rows) h = rw (ltb_ℤ_asymm m.sort_key r.sort_key h.0) refl

All-insert_by_key :
    (P : UserSymbol → Type 0) (r : UserSymbol) (rows : List UserSymbol)
    → P r
    → All P rows
    → All P (insert_by_key r rows)
All-insert_by_key P r [] p h = (p, tt)
All-insert_by_key P r (s ∷ rows) p h = elim (Bool-cases (ltb_ℤ s.sort_key r.sort_key)) [
  | inl e ↦ rw e (h.0, All-insert_by_key P r rows p h.1)
  | inr e ↦ rw e (p, h)
]

pub All-sort_by_key :
    (P : UserSymbol → Type 0) (rows : List UserSymbol) → All P rows → All P (sort_by_key rows)
unfolding sort_by_key
All-sort_by_key P [] h = tt
All-sort_by_key P (r ∷ rows) h =
    All-insert_by_key P r (sort_by_key rows) h.0 (All-sort_by_key P rows h.1)

-- The row of the least key comes first, the others sorted behind it.
sort_by_key_least :
    (g : UserSymbol → UserSymbol) (code : String) (m : UserSymbol) (rows : List UserSymbol)
    → Coded rows
    → any (has_code code) rows ≡ true
    → All (λ r. has_code code r ≡ true → g r ≡ m) rows
    → All (λ r. has_code code r ≡ false → Before m (g r)) rows
    → sort_by_key (map g rows) ≡ m ∷ sort_by_key (map g (others code rows))
unfolding sort_by_key
sort_by_key_least g code m [] d known same before = cc
sort_by_key_least g code m (r ∷ rows) d known same before = elim (Bool-cases (has_code code r)) [
  | inl e ↦
      let none : any (has_code code) rows ≡ false = none_behind code r rows d e in
      let kept : others code rows ≡ rows = keep_all (has_code code) rows none in
      rw (e, kept, same.0 e)
        (insert_by_key_least m (sort_by_key (map g rows)) (
          All-sort_by_key (Before m) (map g rows) (
            All-mapped (Before m) g rows
              (All-zip _ _ _ (λ r' h f. f h) rows (All-none (has_code code) rows none) before.1))))
  | inr e ↦
      let rest : any (has_code code) rows ≡ true = ground arith in
      rw (e, sort_by_key_least g code m rows d.1 rest same.1 before.1, before.0 e) refl
]

pub place_above :
    (i j : ℕ) (codes : List String) (r : UserSymbol)
    → j < i
    → in_codes codes r ≡ true
    → ltb_ℤ (pos j) (place (λ k. pos k) i codes r).sort_key ≡ true
place_above i j [] r h e = cc
place_above i j (code ∷ codes) r h e = elim (Bool-cases (has_code code r)) [
  | inl hit ↦ rw hit (ground arith)
  | inr miss ↦ rw miss (place_above (suc i) j codes r (omega arith) (ground arith))
]

map-others :
    (i : ℕ) (code : String) (codes : List String) (rows : List UserSymbol)
    → map (place (λ k. pos k) i (code ∷ codes)) (others code rows)
      ≡ map (place (λ k. pos k) (suc i) codes) (others code rows)
map-others i code codes [] = refl
map-others i code codes (r ∷ rows) = elim (Bool-cases (has_code code r)) [
  | inl e ↦ rw e (map-others i code codes rows)
  | inr e ↦ ground (arith, map-others i code codes rows)
]

-- Rows with the keys of their places, sorted, are in the order of the codes.
pub sort_by_key-place :
    (i : ℕ) (codes : List String) (rows : List UserSymbol)
    → Distinct (λ s. s) codes
    → Coded rows
    → Known rows codes
    → Covered codes rows
    → map (λ r. UserSymbol.symbol_code r) (sort_by_key (map (place (λ k. pos k) i codes) rows))
      ≡ codes
unfolding sort_by_key
sort_by_key-place i [] [] dc d known covered = refl
sort_by_key-place i [] (r ∷ rows) dc d known covered = cc
sort_by_key-place i (code ∷ codes) rows dc d known covered =
    elim (Option-cases (find_by (has_code code) rows)) [
      | inl e ↦ absurd (ground (arith, find_by-none (has_code code) rows e))
      | inr (s, e) ↦
          let key : ℕ → ℤ = λ k. pos k in
          let first =
            sort_by_key_least (place key i (code ∷ codes)) code (set_key (pos i) s) rows d known.0
              (All-map _ _ (λ r same h. rw h (ap (set_key (pos i)) (same (has_code_iff code r h))))
                rows (find_by_unique (λ r. UserSymbol.symbol_code r) code rows d e))
              (All-map _ _
                (λ r h miss. rw miss (place_above (suc i) i codes r (omega arith) (ground arith)))
                rows covered) in
          let named : s.symbol_code ≡ code =
            has_code_iff code s (All-find_by _ (has_code code) rows covered e).1 in
          let rest =
            sort_by_key-place (suc i) codes (others code rows) dc.1 (Distinct-keep _ _ rows d)
              (Known-others code codes rows dc.0 known.1)
              (Covered-others code codes rows covered) in
          rw (first, map-others i code codes rows, rest, named) refl
    ]

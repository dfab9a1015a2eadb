-- ===== src/Watchlist/Order.antt =====
-- Rows of one user by the places of their codes in a list of codes.
use stock_backend.Prelude.{
  ℕ, suc, ◌+◌, ◌≡◌, ◌≢◌, refl, subst, ◌∙◌, sym, inl, inr, Bool, true, false, not, List, [], ◌∷◌,
  String, if◌then◌else◌, length, any, keep, count_by, All, All-map, All-zip, All-split, Distinct,
  Distinct-keep, count_by-none, keep_all, Bool-cases, nat_eq, string_eq, ℤ, arith,
}
use stock_backend.Watchlist.Store.{UserSymbol, has_code, set_key}

-- The row with the key of its code's place.
abbrev pub place : (ℕ → ℤ) → ℕ → List String → UserSymbol → UserSymbol
place key i [] r = r
place key i (code ∷ codes) r =
    if has_code code r then set_key (key i) r else place key (suc i) codes r

abbrev pub in_codes : List String → UserSymbol → Bool
in_codes codes r = any (λ code. has_code code r) codes

abbrev pub others : String → List UserSymbol → List UserSymbol
others code rows = keep (λ r. not (has_code code r)) rows

abbrev pub Known : List UserSymbol → List String → Type 0
Known rows codes = All (λ code. any (has_code code) rows ≡ true) codes

abbrev pub Covered : List String → List UserSymbol → Type 0
Covered codes rows = All (λ r. in_codes codes r ≡ true) rows

pub has_code_iff : (code : String) (r : UserSymbol) → has_code code r ≡ true → r.symbol_code ≡ code
has_code_iff code r = (string_eq.beq_iff r.symbol_code code).0

not_has_code : (code : String) (r : UserSymbol) → r.symbol_code ≢ code → has_code code r ≡ false
not_has_code code r ne = ground (arith, has_code_iff code r)

pub place_absent :
    (key : ℕ → ℤ) (i : ℕ) (code : String) (codes : List String) (r : UserSymbol)
    → All (λ other. other ≢ code) codes
    → r.symbol_code ≡ code
    → place key i codes r ≡ r
place_absent key i code [] r h e = refl
place_absent key i code (other ∷ codes) r h e =
    rw (not_has_code other r (λ f. h.0 (sym f ∙ e))) (place_absent key (suc i) code codes r h.1 e)

any_absent :
    (code : String) (rows : List UserSymbol)
    → All (λ r. r.symbol_code ≢ code) rows
    → any (has_code code) rows ≡ false
any_absent code [] h = refl
any_absent code (r ∷ rows) h = ground (arith, not_has_code code r h.0, any_absent code rows h.1)

abbrev pub Coded : List UserSymbol → Type 0
Coded = Distinct (λ r. UserSymbol.symbol_code r)

-- The rows behind one with the code do not have it.
pub none_behind :
    (code : String) (r : UserSymbol) (rows : List UserSymbol)
    → Coded (r ∷ rows)
    → has_code code r ≡ true
    → any (has_code code) rows ≡ false
none_behind code r rows d e =
    any_absent code rows
      (subst (λ s. All (λ y. y.symbol_code ≢ s) rows) (has_code_iff code r e) d.0)

-- In a list with distinct codes a code that occurs occurs once.
pub count_by_one :
    (code : String) (rows : List UserSymbol)
    → Coded rows
    → any (has_code code) rows ≡ true
    → (count_by (has_code code) rows ≡ 1) × (length (others code rows) + 1 ≡ length rows)
count_by_one code [] d h = cc
count_by_one code (r ∷ rows) d h = elim (Bool-cases (has_code code r)) [
  | inl e ↦
      let rest : any (has_code code) rows ≡ false = none_behind code r rows d e in
      let kept : others code rows ≡ rows = keep_all (has_code code) rows rest in
      let zero_more : count_by (has_code code) rows ≡ 0 =
        count_by-none (has_code code) (has_code code) rows (λ _ h. h) rest in
      rw (e, kept, zero_more) (refl, omega arith)
  | inr e ↦ ground (arith, count_by_one code rows d.1)
]

any-others :
    (code other : String) (rows : List UserSymbol)
    → other ≢ code
    → any (has_code other) rows ≡ true
    → any (has_code other) (others code rows) ≡ true
any-others code other [] ne h = cc
any-others code other (r ∷ rows) ne h =
    ground (arith, has_code_iff code r, has_code_iff other r, any-others code other rows ne)

pub Known-others :
    (code : String) (codes : List String) (rows : List UserSymbol)
    → All (λ other. other ≢ code) codes
    → Known rows codes
    → Known (others code rows) codes
Known-others code codes rows =
    All-zip (λ other. other ≢ code) (λ other. any (has_code other) rows ≡ true) _
      (λ other. any-others code other rows) codes

pub Covered-others :
    (code : String) (codes : List String) (rows : List UserSymbol)
    → Covered (code ∷ codes) rows
    → Covered codes (others code rows)
Covered-others code codes [] h = tt
Covered-others code codes (r ∷ rows) h = elim (Bool-cases (has_code code r)) [
  | inl e ↦ rw e (Covered-others code codes rows h.1)
  | inr e ↦ rw e (ground arith, Covered-others code codes rows h.1)
]

-- As many distinct codes as rows, each that of a row: they are the codes of all rows.
pub Known-Covered :
    (codes : List String) (rows : List UserSymbol)
    → Distinct (λ s. s) codes
    → Coded rows
    → Known rows codes
    → length codes ≡ length rows
    → Covered codes rows
Known-Covered [] [] dc d known e = tt
Known-Covered [] (r ∷ rows) dc d known e = absurd (omega arith)
Known-Covered (code ∷ codes) rows dc d known e =
    All-split _ (has_code code) (λ r h. ground arith) rows
      (All-map _ _ (λ r h. ground arith) (others code rows)
        (Known-Covered codes (others code rows) dc.1 (Distinct-keep _ _ rows d)
          (Known-others code codes rows dc.0 known.1)
          (omega (arith, (count_by_one code rows d known.0).1))))

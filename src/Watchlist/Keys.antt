-- ===== src/Watchlist/Keys.antt =====
-- The key of a row that is added behind the others: COALESCE(MAX(sort_key), -1) + 1.
use stock_backend.Prelude.{
  zero, suc, ◌≡◌, ◌≢◌, refl, ap, inl, inr, true, false, List, [], ◌∷◌, ◌++◌, ◌==◌, if◌then◌else◌,
  All, Bool-cases, nat_eq, nat_beq_iff, ℤ, pos, negsuc, ltb_ℤ, int_eq, max_int64, succ_int64, arith,
}
use stock_backend.Watchlist.Store.{UserSymbol, greatest, max_or, insert_by_key}
use stock_backend.Watchlist.Invariant.{IsPos}

abbrev pub AtMost : ℤ → ℤ → Type 0
AtMost a b = ltb_ℤ b a ≡ false

AtMost-trans : (a b c : ℤ) → AtMost a b → AtMost b c → AtMost a c
AtMost-trans (pos m) (pos n) (pos k) h g = ground arith
AtMost-trans (pos m) (pos n) (negsuc k) h g = ground arith
AtMost-trans (pos m) (negsuc n) c h g = ground arith
AtMost-trans (negsuc m) b (pos k) h g = refl
AtMost-trans (negsuc m) (pos n) (negsuc k) h g = ground arith
AtMost-trans (negsuc m) (negsuc n) (negsuc k) h g = ground arith

AtMost-refl : (a : ℤ) → AtMost a a
AtMost-refl (pos n) = ground arith
AtMost-refl (negsuc n) = ground arith

ltb_ℤ-AtMost : (a b : ℤ) → ltb_ℤ a b ≡ true → AtMost a b
ltb_ℤ-AtMost (pos m) (pos n) h = ground arith
ltb_ℤ-AtMost (pos m) (negsuc n) h = ground arith
ltb_ℤ-AtMost (negsuc m) (pos n) h = refl
ltb_ℤ-AtMost (negsuc m) (negsuc n) h = ground arith

abbrev larger : ℤ → UserSymbol → ℤ
larger key r = if ltb_ℤ key r.sort_key then r.sort_key else key

larger_bounds :
    (key : ℤ) (r : UserSymbol) → AtMost key (larger key r) × AtMost r.sort_key (larger key r)
larger_bounds key r = elim (Bool-cases (ltb_ℤ key r.sort_key)) [
  | inl e ↦ rw e (ltb_ℤ-AtMost key r.sort_key e, AtMost-refl r.sort_key)
  | inr e ↦ rw e (AtMost-refl key, e)
]

greatest_bounds :
    (key : ℤ) (rows : List UserSymbol)
    → AtMost key (greatest key rows) × All (λ r. AtMost r.sort_key (greatest key rows)) rows
greatest_bounds key [] = (AtMost-refl key, tt)
greatest_bounds key (r ∷ rows) =
    let rest = greatest_bounds (larger key r) rows in
    let both = larger_bounds key r in
    let last : ℤ = greatest (larger key r) rows in
    (
      AtMost-trans key (larger key r) last both.0 rest.0,
      (AtMost-trans r.sort_key (larger key r) last both.1 rest.0, rest.1),
    )

pub max_or_bounds :
    (key : ℤ) (rows : List UserSymbol) → All (λ r. AtMost r.sort_key (max_or key rows)) rows
max_or_bounds key [] = tt
max_or_bounds key (r ∷ rows) = greatest_bounds r.sort_key rows

-- The column's values, and what the aggregate answers for no row.
abbrev pub FromMinusOne : ℤ → Type 0
FromMinusOne k = AtMost (negsuc 0) k

IsPos-FromMinusOne : (k : ℤ) → IsPos k → FromMinusOne k
IsPos-FromMinusOne (pos n) h = refl
IsPos-FromMinusOne (negsuc n) h = absurd h

pub max_or-FromMinusOne :
    (rows : List UserSymbol)
    → All (λ r. IsPos r.sort_key) rows
    → FromMinusOne (max_or (negsuc 0) rows)
max_or-FromMinusOne [] h = refl
max_or-FromMinusOne (r ∷ rows) h =
    AtMost-trans (negsuc 0) r.sort_key (greatest r.sort_key rows)
      (IsPos-FromMinusOne r.sort_key h.0) (greatest_bounds r.sort_key rows).0

pub succ_int64-IsPos : (k : ℤ) → FromMinusOne k → k ≢ pos max_int64 → IsPos (succ_int64 k)
unfolding succ_int64
succ_int64-IsPos (pos n) h ne = elim (Bool-cases (n == max_int64)) [
  | inl e ↦ absurd (ne (ap pos ((nat_beq_iff n max_int64).0 e)))
  | inr e ↦ rw e tt
]
succ_int64-IsPos (negsuc zero) h ne = tt
succ_int64-IsPos (negsuc (suc n)) h ne = absurd (ground arith)

pub succ_int64_above :
    (a k : ℤ) → IsPos a → AtMost a k → k ≢ pos max_int64 → ltb_ℤ a (succ_int64 k) ≡ true
unfolding succ_int64
succ_int64_above (pos m) (pos n) p h ne = elim (Bool-cases (n == max_int64)) [
  | inl e ↦ absurd (ne (ap pos ((nat_beq_iff n max_int64).0 e)))
  | inr e ↦ rw e (ground arith)
]
succ_int64_above (pos m) (negsuc n) p h ne = absurd (ground arith)
succ_int64_above (negsuc m) k p h ne = absurd p

pub insert_by_key_last :
    (m : UserSymbol) (rows : List UserSymbol)
    → All (λ r. ltb_ℤ r.sort_key m.sort_key ≡ true) rows
    → insert_by_key m rows ≡ rows ++ (m ∷ [])
insert_by_key_last m [] h = refl
insert_by_key_last m (r ∷ rows) h = rw (h.0, insert_by_key_last m rows h.1) refl

pub ltb_ℤ_ne : (a b : ℤ) → ltb_ℤ a b ≡ true → a == b ≡ false
ltb_ℤ_ne (pos m) (pos n) h = ground arith
ltb_ℤ_ne (pos m) (negsuc n) h = refl
ltb_ℤ_ne (negsuc m) (pos n) h = refl
ltb_ℤ_ne (negsuc m) (negsuc n) h = ground arith

-- ===== src/Prelude/Rows.antt =====
-- Rows of a table as a list: the first that a test accepts, the rows kept, rows rewritten, and a
-- predicate of all rows. The tests are functions into `Bool`, as a query's WHERE clause.
use Prim.Native.Nat.{ℕ, ◌+◌, ◌≤◌}
use mathlib.Core.Path.{◌≡◌, refl}
use mathlib.Core.Bool.{Bool, true, false, not, ◌||◌}
use mathlib.Core.Option.{Option, none, some}
use mathlib.Core.List.{List, [], ◌∷◌}
use native.Mathlib.Omega.{arith}
use mathlib.Core.Logic.{inl, inr}
use stock_backend.Prelude.Tests.{if◌then◌else◌, Bool-cases}

module _ {ℓ} {A : Type ℓ} where
  abbrev pub find_by : (A → Bool) → List A → Option A
  find_by p [] = none
  find_by p (x ∷ xs) = if p x then some x else find_by p xs

  abbrev pub any : (A → Bool) → List A → Bool
  any p [] = false
  any p (x ∷ xs) = p x || any p xs

  abbrev pub keep : (A → Bool) → List A → List A
  keep p [] = []
  keep p (x ∷ xs) = let rest = keep p xs in if p x then x ∷ rest else rest

  abbrev pub update_where : (A → Bool) → (A → A) → List A → List A
  update_where p f [] = []
  update_where p f (x ∷ xs) = (if p x then f x else x) ∷ update_where p f xs

  abbrev pub count_by : (A → Bool) → List A → ℕ
  count_by p [] = 0
  count_by p (x ∷ xs) = (if p x then 1 else 0) + count_by p xs

  abbrev pub All {κ} : (A → Type κ) → List A → Type κ
  All P [] = Unit
  All P (x ∷ xs) = P x × All P xs

  pub All-find_by {κ} :
      (P : A → Type κ) (p : A → Bool) (xs : List A) {x : A}
      → All P xs
      → find_by p xs ≡ some x
      → P x × (p x ≡ true)
  All-find_by P p [] h e = cc
  All-find_by P p (y ∷ ys) {x} h e = ground (arith, All-find_by P p ys {x = x} h.1)

  pub All-map {κ μ} :
      (P : A → Type κ) (Q : A → Type μ)
      → ((x : A) → P x → Q x)
      → (xs : List A) → All P xs
      → All Q xs
  All-map P Q f [] h = tt
  All-map P Q f (x ∷ xs) h = (f x h.0, All-map P Q f xs h.1)

-- An update that makes no row count that did not count before.
module _ {ℓ} {A : Type ℓ} (q : A → Bool) (g : A → A)
    (closes : (x : A) → q (g x) ≡ true → q x ≡ true) where
  pub count_by-update_where-le :
      (p : A → Bool) (xs : List A) → count_by q (update_where p g xs) ≤ count_by q xs
  count_by-update_where-le p [] = omega arith
  count_by-update_where-le p (x ∷ xs) = ground (arith, closes x, count_by-update_where-le p xs)

  -- It loses one that it updates.
  pub count_by-update_where-lt :
      (p r : A → Bool) (xs : List A) {s : A}
      → find_by r xs ≡ some s
      → p s ≡ true
      → q s ≡ true
      → q (g s) ≡ false
      → count_by q (update_where p g xs) + 1 ≤ count_by q xs
  count_by-update_where-lt p r [] e hp hq hg = cc
  count_by-update_where-lt p r (x ∷ xs) {s} e hp hq hg = elim (Bool-cases (r x)) [
    | inl hit ↦
        let same : x ≡ s = ground arith in
        rw (same, hp, hq, hg) (omega (arith, count_by-update_where-le p xs))
    | inr miss ↦
        let found : find_by r xs ≡ some s = ground arith in
        ground (arith, closes x, count_by-update_where-lt p r xs found hp hq hg)
  ]

module _ {ℓ} {A : Type ℓ} where
  pub count_by-keep-le : (q p : A → Bool) (xs : List A) → count_by q (keep p xs) ≤ count_by q xs
  count_by-keep-le q p [] = omega arith
  count_by-keep-le q p (x ∷ xs) = ground (arith, count_by-keep-le q p xs)

  pub count_by-none :
      (q p : A → Bool) (xs : List A)
      → ((x : A) → q x ≡ true → p x ≡ true)
      → any p xs ≡ false
      → count_by q xs ≡ 0
  count_by-none q p [] f h = refl
  count_by-none q p (x ∷ xs) f h = ground (arith, f x, count_by-none q p xs f)

  pub All-update_where {κ} :
      (P : A → Type κ) (p : A → Bool) (g : A → A)
      → ((x : A) → p x ≡ true → P x → P (g x))
      → (xs : List A) → All P xs
      → All P (update_where p g xs)
  All-update_where P p g f [] h = tt
  All-update_where P p g f (x ∷ xs) h = elim (Bool-cases (p x)) [
    | inl e ↦ rw e (f x e h.0, All-update_where P p g f xs h.1)
    | inr e ↦ rw e (h.0, All-update_where P p g f xs h.1)
  ]

  pub All-keep {κ} : (P : A → Type κ) (p : A → Bool) (xs : List A) → All P xs → All P (keep p xs)
  All-keep P p [] h = tt
  All-keep P p (x ∷ xs) h = elim (Bool-cases (p x)) [
    | inl e ↦ rw e (h.0, All-keep P p xs h.1)
    | inr e ↦ rw e (All-keep P p xs h.1)
  ]

module _ {ℓ} {A : Type ℓ} where
  pub keep_all : (p : A → Bool) (xs : List A) → any p xs ≡ false → keep (λ x. not (p x)) xs ≡ xs
  keep_all p [] h = refl
  keep_all p (x ∷ xs) h = ground (arith, keep_all p xs)

-- ===== src/Prelude/Selections.antt =====
-- More of rows as a list: the rows that a test keeps against all rows, and updates of some rows.
use mathlib.Core.Path.{◌≡◌, refl}
use mathlib.Core.Logic.{inl, inr}
use mathlib.Core.Bool.{Bool, true, false, not, ◌&&◌}
use mathlib.Core.Option.{none, some}
use mathlib.Core.List.{List, [], ◌∷◌, map}
use native.Mathlib.Omega.{arith}
use stock_backend.Prelude.Tests.{if◌then◌else◌, Bool-cases}
use stock_backend.Prelude.Rows.{All, any, count_by, find_by, keep, update_where}

module _ {ℓ} {A : Type ℓ} where
  pub All-zip {κ μ ν} :
      (P : A → Type κ) (Q : A → Type μ) (R : A → Type ν)
      → ((x : A) → P x → Q x → R x)
      → (xs : List A) → All P xs
      → All Q xs
      → All R xs
  All-zip P Q R f [] h k = tt
  All-zip P Q R f (x ∷ xs) h k = (f x h.0 k.0, All-zip P Q R f xs h.1 k.1)

  -- What holds of the rows that a test accepts, and of the rest, holds of all.
  pub All-split {κ} :
      (P : A → Type κ) (p : A → Bool)
      → ((x : A) → p x ≡ true → P x)
      → (xs : List A) → All P (keep (λ x. not (p x)) xs)
      → All P xs
  All-split P p f [] h = tt
  All-split P p f (x ∷ xs) h = elim (Bool-cases (p x)) [
    | inl e ↦ (f x e, All-split P p f xs (rw e at h))
    | inr e ↦
        let rest : P x × All P (keep (λ y. not (p y)) xs) = rw e at h in
        (rest.0, All-split P p f xs rest.1)
  ]

  pub All-none : (p : A → Bool) (xs : List A) → any p xs ≡ false → All (λ x. p x ≡ false) xs
  All-none p [] h = tt
  All-none p (x ∷ xs) h = (ground arith, All-none p xs (ground arith))

  pub find_by-some : (p : A → Bool) (xs : List A) {x : A} → find_by p xs ≡ some x → any p xs ≡ true
  find_by-some p [] e = cc
  find_by-some p (y ∷ xs) {x} e = ground (arith, find_by-some p xs {x = x})

  pub find_by-none : (p : A → Bool) (xs : List A) → find_by p xs ≡ none → any p xs ≡ false
  find_by-none p [] h = refl
  find_by-none p (x ∷ xs) h = ground (arith, find_by-none p xs)

module _ {ℓ} {A : Type ℓ} (q : A → Bool) (g : A → A) (same : (x : A) → q (g x) ≡ q x) where
  pub any-update_where : (p : A → Bool) (xs : List A) → any q (update_where p g xs) ≡ any q xs
  any-update_where p [] = refl
  any-update_where p (x ∷ xs) = ground (arith, same x, any-update_where p xs)

  pub count_by-update_where :
      (p : A → Bool) (xs : List A) → count_by q (update_where p g xs) ≡ count_by q xs
  count_by-update_where p [] = refl
  count_by-update_where p (x ∷ xs) = ground (arith, same x, count_by-update_where p xs)

module _ {ℓ} {A : Type ℓ} where
  pub update_where_same : (p : A → Bool) (xs : List A) → update_where p (λ x. x) xs ≡ xs
  update_where_same p [] = refl
  update_where_same p (x ∷ xs) = ground (arith, update_where_same p xs)

  pub All-of_keep {κ} :
      (P : A → Type κ) (p : A → Bool) (xs : List A)
      → All P (keep p xs)
      → All (λ x. p x ≡ true → P x) xs
  All-of_keep P p [] h = tt
  All-of_keep P p (x ∷ xs) h = elim (Bool-cases (p x)) [
    | inl e ↦
        let kept : P x × All P (keep p xs) = rw e at h in (λ _. kept.0, All-of_keep P p xs kept.1)
    | inr e ↦ (λ f. absurd (ground arith), All-of_keep P p xs (rw e at h))
  ]

  pub any-keep : (q p : A → Bool) (xs : List A) → any q (keep p xs) ≡ any (λ x. p x && q x) xs
  any-keep q p [] = refl
  any-keep q p (x ∷ xs) = ground (arith, any-keep q p xs)

  pub count_by-keep :
      (q p : A → Bool) (xs : List A) → count_by q (keep p xs) ≡ count_by (λ x. p x && q x) xs
  count_by-keep q p [] = refl
  count_by-keep q p (x ∷ xs) = ground (arith, count_by-keep q p xs)

  pub update_where_twice :
      (p : A → Bool) (f g h : A → A)
      → ((x : A) → p (g x) ≡ p x)
      → ((x : A) → f (g x) ≡ h x)
      → (xs : List A) → update_where p f (update_where p g xs) ≡ update_where p h xs
  update_where_twice p f g h same e [] = refl
  update_where_twice p f g h same e (x ∷ xs) =
      ground (arith, same x, e x, update_where_twice p f g h same e xs)

  -- What holds of the rows that an update rewrites, once it has.
  pub All-of_update_where {κ} :
      (P : A → Type κ) (p : A → Bool) (g : A → A) (xs : List A)
      → All (λ x. p x ≡ true → P (g x)) xs
      → All (λ x. p x ≡ true → P x) (update_where p g xs)
  All-of_update_where P p g [] h = tt
  All-of_update_where P p g (x ∷ xs) h = elim (Bool-cases (p x)) [
    | inl e ↦ rw e (λ _. h.0 e, All-of_update_where P p g xs h.1)
    | inr e ↦ rw e (λ f. absurd (ground arith), All-of_update_where P p g xs h.1)
  ]

  pub keep-update_where :
      (p : A → Bool) (g : A → A)
      → ((x : A) → p (g x) ≡ p x)
      → (xs : List A) → keep p (update_where p g xs) ≡ map g (keep p xs)
  keep-update_where p g same [] = refl
  keep-update_where p g same (x ∷ xs) = ground (arith, same x, keep-update_where p g same xs)

  pub All-updated {κ} :
      (P : A → Type κ) (p : A → Bool) (g : A → A) (xs : List A)
      → All (λ x. P (if p x then g x else x)) xs
      → All P (update_where p g xs)
  All-updated P p g [] h = tt
  All-updated P p g (x ∷ xs) h = (h.0, All-updated P p g xs h.1)

module _ {ℓ κ μ} {A : Type ℓ} {B : Type κ} where
  pub All-mapped :
      (P : B → Type μ) (g : A → B) (xs : List A) → All (λ x. P (g x)) xs → All P (map g xs)
  All-mapped P g [] h = tt
  All-mapped P g (x ∷ xs) h = (h.0, All-mapped P g xs h.1)

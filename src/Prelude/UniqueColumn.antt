-- ===== src/Prelude/UniqueColumn.antt =====
-- A column whose values are distinct, as under a UNIQUE constraint.
use mathlib.Core.Path.{◌≡◌, sym, ◌∙◌}
use mathlib.Core.Logic.{◌≢◌, inl, inr}
use mathlib.Core.Bool.{Bool, false}
use mathlib.Core.Option.{some}
use mathlib.Core.List.{List, [], ◌∷◌}
use native.Mathlib.Omega.{arith}
use stock_backend.Prelude.Tests.{if◌then◌else◌, Bool-cases, Eq, ◌==◌}
use stock_backend.Prelude.Rows.{
  All, All-map, All-keep, All-update_where, find_by, any, keep, update_where,
}

module _ {ℓ κ} {A : Type ℓ} {K : Type κ} (key : A → K) where
  abbrev pub Distinct : List A → Type (ℓ ⊔ κ)
  Distinct [] = Unit
  Distinct (x ∷ xs) = All (λ y. key y ≢ key x) xs × Distinct xs

  pub Distinct-keep : (p : A → Bool) (xs : List A) → Distinct xs → Distinct (keep p xs)
  Distinct-keep p [] h = tt
  Distinct-keep p (x ∷ xs) h = elim (Bool-cases (p x)) [
    | inl e ↦ rw e (All-keep (λ y. key y ≢ key x) p xs h.0, Distinct-keep p xs h.1)
    | inr e ↦ rw e (Distinct-keep p xs h.1)
  ]

module _ {ℓ κ} {A : Type ℓ} {K : Type κ} (key : A → K) where
  updated-key :
      (p : A → Bool) (g : A → A) (same : (x : A) → key (g x) ≡ key x) (x : A)
      → key (if p x then g x else x) ≡ key x
  updated-key p g same x = ground (arith, same x)

  pub Distinct-update_where :
      (p : A → Bool) (g : A → A)
      → ((x : A) → key (g x) ≡ key x)
      → (xs : List A) → Distinct key xs
      → Distinct key (update_where p g xs)
  Distinct-update_where p g same [] h = tt
  Distinct-update_where p g same (x ∷ xs) h = (
    rw (updated-key p g same x)
        (All-update_where (λ y. key y ≢ key x) p g (λ y _ ne e. ne (sym (same y) ∙ e)) xs h.0),
    Distinct-update_where p g same xs h.1,
  )

module _ {ℓ κ} {A : Type ℓ} {K : Type κ} ⦃e : Eq K⦄ (key : A → K) where
  -- No row with the value: a new one may have it.
  pub absent : (k : K) (xs : List A) → any (λ x. key x == k) xs ≡ false → All (λ y. key y ≢ k) xs
  absent k [] h = tt
  absent k (x ∷ xs) h =
      (λ same. ground (arith, (e.beq_iff (key x) k).1), absent k xs (ground arith))

  -- The row found by a distinct value is the only one with it.
  pub find_by_unique :
      (k : K) (xs : List A) {s : A}
      → Distinct key xs
      → find_by (λ x. key x == k) xs ≡ some s
      → All (λ x. key x ≡ k → x ≡ s) xs
  find_by_unique k [] d f = tt
  find_by_unique k (x ∷ xs) {s} d f = elim (Bool-cases (key x == k)) [
    | inl hit ↦
        let here : x ≡ s = ground arith in
        let keyed : key x ≡ k = (e.beq_iff (key x) k).0 hit in
        (λ _. here, All-map _ _ (λ y ne same. absurd (ne (same ∙ sym keyed))) xs d.0)
    | inr miss ↦
        let found : find_by (λ y. key y == k) xs ≡ some s = ground arith in
        (λ same. absurd (ground (arith, (e.beq_iff (key x) k).1)), find_by_unique k xs d.1 found)
  ]

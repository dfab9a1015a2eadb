-- ===== src/CandlesHttp/Checks.antt =====
-- The codes that the handler of the quotes hands on.
use stock_backend.Prelude.{
  ◌≤◌, ◌≡◌, refl, sym, subst, inl, inr, Bool, true, false, ◌||◌, List, [], ◌∷◌, String, ◌==◌,
  length, any, All, All-map, Distinct, Bool-cases, string_eq, arith,
}
use stock_backend.CandlesHttp.Handler.{dedup_codes}

abbrev has : String → List String → Bool
has code codes = any (λ s. s == code) codes

dedup_codes-unseen :
    (seen codes : List String) → All (λ s. has s seen ≡ false) (dedup_codes seen codes)
unfolding dedup_codes
dedup_codes-unseen seen [] = tt
dedup_codes-unseen seen (code ∷ codes) = elim (Bool-cases (has code seen)) [
  | inl e ↦ rw e (dedup_codes-unseen seen codes)
  | inr e ↦ rw e (e, All-map _ _ (λ s h. ground arith) _ (dedup_codes-unseen (code ∷ seen) codes))
]

dedup_codes-Distinct : (seen codes : List String) → Distinct (λ s. s) (dedup_codes seen codes)
unfolding dedup_codes
dedup_codes-Distinct seen [] = tt
dedup_codes-Distinct seen (code ∷ codes) = elim (Bool-cases (has code seen)) [
  | inl e ↦ rw e (dedup_codes-Distinct seen codes)
  | inr e ↦ rw e (
    All-map _ _ (λ s h same. ground (arith, (string_eq.beq_iff code s).1 (sym same))) _
        (dedup_codes-unseen (code ∷ seen) codes),
    dedup_codes-Distinct (code ∷ seen) codes,
  )
]

-- Nothing seen or asked for is lost, and nothing else comes.
dedup_codes-has :
    (s : String) (seen codes : List String)
    → (has s seen || has s (dedup_codes seen codes)) ≡ (has s seen || has s codes)
unfolding dedup_codes
dedup_codes-has s seen [] = refl
dedup_codes-has s seen (code ∷ codes) = elim (Bool-cases (has code seen)) [
  | inl e ↦ elim (Bool-cases (code == s)) [
    | inl f ↦
        let there : has s seen ≡ true =
          subst (λ t. has t seen ≡ true) ((string_eq.beq_iff code s).0 f) e in
        rw there refl
    | inr f ↦ rw (e, f) (dedup_codes-has s seen codes)
  ]
  | inr e ↦ rw e (ground (arith, dedup_codes-has s (code ∷ seen) codes))
]

dedup_codes-length : (seen codes : List String) → length (dedup_codes seen codes) ≤ length codes
unfolding dedup_codes
dedup_codes-length seen [] = omega arith
dedup_codes-length seen (code ∷ codes) =
    ground (arith, dedup_codes-length seen codes, dedup_codes-length (code ∷ seen) codes)

-- The codes handed on are distinct, are the codes of the request, and are not more than them.
pub dedup_codes_lem :
    (codes : List String)
    → Distinct (λ s. s) (dedup_codes [] codes)
      × ((s : String) → has s (dedup_codes [] codes) ≡ has s codes)
      × (length (dedup_codes [] codes) ≤ length codes)
dedup_codes_lem codes =
    (dedup_codes-Distinct [] codes, λ s. dedup_codes-has s [] codes, dedup_codes-length [] codes)

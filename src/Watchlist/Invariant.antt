-- ===== src/Watchlist/Invariant.antt =====
-- What holds of the table `watchlists`: its two unique indexes, keys from 0 on.
use stock_backend.Prelude.{
  ℕ, ◌≡◌, ◌≢◌, sym, ◌∙◌, inl, inr, true, List, [], ◌∷◌, keep, any-keep, count_by-keep, All,
  Distinct, Bool-cases, nat_eq, nat_beq_iff, string_eq, ℤ, pos, negsuc,
}
use stock_backend.Watchlist.Store.{UserSymbol, Tables, of_user, has_code}
use stock_backend.Watchlist.Rewriting.{Alike}

abbrev pub IsPos : ℤ → Type 0
IsPos (pos n) = Unit
IsPos (negsuc n) = ⊥

-- A column together with the user, as in either unique index.
abbrev pub per_user : {K : Type 0} → (UserSymbol → K) → UserSymbol → ℕ × K
per_user key r = (r.user_id, key r)

pub record IsValid (t : Tables) : Type 0 where
  pub one_per_code : Distinct (per_user (λ r. UserSymbol.symbol_code r)) t.watchlists
  pub one_per_key : Distinct (per_user (λ r. UserSymbol.sort_key r)) t.watchlists
  pub keys_from_zero : All (λ r. IsPos r.sort_key) t.watchlists

abbrev pub rows_of : ℕ → List UserSymbol → List UserSymbol
rows_of user ws = keep (of_user user) ws

module _ {K : Type 0} (key : UserSymbol → K) (user : ℕ) where
  -- Rows of one user that differ with the user differ without.
  apart :
      (r : UserSymbol) (ws : List UserSymbol)
      → of_user user r ≡ true
      → All (λ s. per_user key s ≢ per_user key r) ws
      → All (λ s. key s ≢ key r) (rows_of user ws)
  apart r [] e h = tt
  apart r (s ∷ ws) e h = elim (Bool-cases (of_user user s)) [
    | inl f ↦
        let same : s.user_id ≡ r.user_id =
          (nat_beq_iff s.user_id user).0 f ∙ sym ((nat_beq_iff r.user_id user).0 e) in
        rw f ((λ g. h.0 (cc)), apart r ws e h.1)
    | inr f ↦ rw f (apart r ws e h.1)
  ]

  pub Distinct-rows_of :
      (ws : List UserSymbol) → Distinct (per_user key) ws → Distinct key (rows_of user ws)
  Distinct-rows_of [] h = tt
  Distinct-rows_of (r ∷ ws) h = elim (Bool-cases (of_user user r)) [
    | inl e ↦ rw e (apart r ws e h.0, Distinct-rows_of ws h.1)
    | inr e ↦ rw e (Distinct-rows_of ws h.1)
  ]

pub Alike-rows_of : (user : ℕ) (ws : List UserSymbol) → Alike user (rows_of user ws) ws
Alike-rows_of user ws code = (
  sym (any-keep (has_code code) (of_user user) ws),
  sym (count_by-keep (has_code code) (of_user user) ws),
)

-- ===== src/Database/Agrees.antt =====
-- A computation on a connection agrees with a function on the tables: it either has the function's
-- result and makes the function's tables durable, or a call failed and nothing durable changed.
use stock_backend.Prelude.{ℕ, suc, ◌≡◌, refl, sym, subst, ◌⊎◌, inl, inr, some, Option-cases}
use stock_backend.Database.{
  Result, ok, err, Conn, Exec, fail, applied, statement, settled, autocommit, execute, begin,
  commit, deferred_rollback, continue, ◌>>=◌,
}

module _ {T E A : Type 0} (wrap : ℕ → E) where
  abbrev pub Agrees : Conn T → Result E A × Conn T → Result E A × T → Type 0
  Agrees c run spec =
      ((n : ℕ) × (x : ℕ) × (c.fault n ≡ some x)
        × (run.0 ≡ err (wrap x))
        × (run.1.durable ≡ c.durable))
      ⊎ ((run.0 ≡ spec.0) × (run.1.durable ≡ spec.1))

  pub Agrees-fail : (c : Conn T) (e : E) (t : T) → c.durable ≡ t → Agrees c (fail e c) (err e, t)
  Agrees-fail c e t h = inr (refl, h)

  pub Agrees-deferred_rollback :
      (c : Conn T) (m : Exec T E A) (spec : Result E A × T)
      → Agrees c (m c) spec
      → Agrees c (deferred_rollback m c) spec
  Agrees-deferred_rollback c m spec h = h

module _ {T E A B : Type 0} (wrap : ℕ → E) where
  -- The statement that a run starts with either fails, or the rest agrees from the state behind it.
  pub Agrees-statement :
      (c : Conn T) (f : T → Result E (A × T)) (k : A → Exec T E B) (spec : Result E B × T)
      → Agrees wrap c (continue k (applied c (f c.working))) spec
      → Agrees wrap c ((statement wrap f >>= k) c) spec
  Agrees-statement c f k spec h = elim (Option-cases (c.fault c.calls)) [
    | inl e ↦ rw (e, statement) h
    | inr (x, e) ↦ inl (c.calls, x, e, rw (e, statement) refl, rw (e, statement) refl)
  ]

  -- A statement of its own: what it does is durable before the rest.
  pub Agrees-autocommit :
      (c : Conn T) (f : T → Result E (A × T)) (k : A → Exec T E B) (spec : Result E B × T)
      → Agrees wrap c
          (continue k (settled (applied (record c { working = c.durable }) (f c.durable))))
          spec
      → Agrees wrap c ((autocommit (statement wrap f) >>= k) c) spec
  Agrees-autocommit c f k spec h = elim (Option-cases (c.fault c.calls)) [
    | inl e ↦ rw (e, statement) h
    | inr (x, e) ↦ inl (c.calls, x, e, rw (e, statement) refl, rw (e, statement) refl)
  ]

module _ {T E B : Type 0} (wrap : ℕ → E) where
  pub Agrees-begin :
      (c : Conn T) (k : Exec T E B) (spec : Result E B × T)
      → Agrees wrap c (k (record c { working = c.durable; calls = suc c.calls })) spec
      → Agrees wrap c ((begin wrap >>= λ _. k) c) spec
  Agrees-begin c k spec h = elim (Option-cases (c.fault c.calls)) [
    | inl e ↦ rw (e, begin) h
    | inr (x, e) ↦ inl (c.calls, x, e, rw (e, begin) refl, rw (e, begin) refl)
  ]

  -- A commit is the last call: the tables that it makes durable are those of the result.
  pub Agrees-commit :
      (c : Conn T) (r : Result E B) (t : T)
      → c.working ≡ t
      → Agrees wrap c ((commit wrap >>= λ _. (λ d. (r, d))) c) (r, t)
  Agrees-commit c r t h = elim (Option-cases (c.fault c.calls)) [
    | inl e ↦ rw (e, commit) (inr (refl, h))
    | inr (x, e) ↦ inl (c.calls, x, e, rw (e, commit) refl, rw (e, commit) refl)
  ]

  -- The end of a transaction: one more statement, the commit, and a result that is settled.
  pub Agrees-execute-commit :
      (c : Conn T) (f : T → T) (r : Result E B)
      → Agrees wrap c ((execute wrap f >>= λ _. (commit wrap >>= λ _ d. (r, d))) c) (r, f c.working)
  Agrees-execute-commit c f r =
      Agrees-statement wrap c (λ t. ok (tt, f t)) (λ _. (commit wrap >>= λ _ d. (r, d)))
        (r, f c.working)
        (Agrees-commit (record c { working = f c.working; calls = suc c.calls }) r (f c.working)
          refl)

module _ {T E A B C : Type 0} (wrap : ℕ → E) where
  continue_assoc :
      (c : Conn T) (f : A → Exec T E B) (g : B → Exec T E C) (spec : Result E C × T)
      (run : Result E A × Conn T)
      → Agrees wrap c (continue (λ a. f a >>= g) run) spec
      → Agrees wrap c (continue g (continue f run)) spec
  continue_assoc c f g spec (ok a, d) h = h
  continue_assoc c f g spec (err e, d) h = h

  pub Agrees-assoc :
      (c : Conn T) (m : Exec T E A) (f : A → Exec T E B) (g : B → Exec T E C)
      (spec : Result E C × T)
      → Agrees wrap c ((m >>= λ a. f a >>= g) c) spec
      → Agrees wrap c ((m >>= f >>= g) c) spec
  Agrees-assoc c m f g spec h = continue_assoc c f g spec (m c) h

-- What holds of the tables before, and of the specification's, holds of the durable ones after.
pub Agrees-keeps :
    {T E A : Type 0} (P : T → Type 0) (wrap : ℕ → E) (c : Conn T) (run : Result E A × Conn T)
    (spec : Result E A × T)
    → P c.durable
    → P spec.1
    → Agrees wrap c run spec
    → P run.1.durable
Agrees-keeps P wrap c run spec before after (inl (n, x, _, _, same)) = subst P (sym same) before
Agrees-keeps P wrap c run spec before after (inr (_, same)) = subst P (sym same) after

-- ===== src/Database/Preserves.antt =====
-- Computations on a connection that keep a property of the durable tables.
use stock_backend.Prelude.{ℕ, ◌≡◌, refl, inl, inr, Option-cases}
use stock_backend.Database.{
  Result, ok, err, Conn, Exec, statement, query, autocommit, settled, applied, continue, ◌>>=◌,
}

module _ {T : Type 0} (P : T → Type 0) where
  abbrev pub Preserves : {E A : Type 0} → Exec T E A → Type 0
  Preserves m = (c : Conn T) → P c.durable → P (m c).1.durable

  continue_Preserves :
      {E A B : Type 0} (f : A → Exec T E B)
      → ((a : A) → Preserves (f a))
      → (run : Result E A × Conn T) → P run.1.durable
      → P (continue f run).1.durable
  continue_Preserves f h (ok a, c) p = h a c p
  continue_Preserves f h (err e, c) p = p

  pub Preserves-bind :
      {E A B : Type 0} (m : Exec T E A) (f : A → Exec T E B)
      → Preserves m
      → ((a : A) → Preserves (f a))
      → Preserves (m >>= f)
  Preserves-bind m f hm hf c p = continue_Preserves f hf (m c) (hm c p)

  pub Preserves-query :
      {E A : Type 0} (wrap : ℕ → E) (f : T → A) → Preserves (autocommit (query wrap f))
  Preserves-query wrap f c p = elim (Option-cases (c.fault c.calls)) [
    | inl e ↦ rw (e, statement) p
    | inr (x, e) ↦ rw (e, statement) p
  ]

  applied_Preserves :
      {E A : Type 0} (c : Conn T) (r : Result E (A × T))
      → P c.working
      → ((a : A) (t : T) → r ≡ ok (a, t) → P t)
      → P (settled (applied c r)).1.durable
  applied_Preserves c (ok (a, t)) p h = h a t refl
  applied_Preserves c (err e) p h = p

  -- A statement of its own keeps what its result on every tables keeps.
  pub Preserves-autocommit :
      {E A : Type 0} (wrap : ℕ → E) (f : T → Result E (A × T))
      → ((t : T) → P t → (a : A) (t' : T) → f t ≡ ok (a, t') → P t')
      → Preserves (autocommit (statement wrap f))
  Preserves-autocommit wrap f h c p = elim (Option-cases (c.fault c.calls)) [
    | inl e ↦
        rw (e, statement)
          (applied_Preserves (record c { working = c.durable }) (f c.durable) p (h c.durable p))
    | inr (x, e) ↦ rw (e, statement) p
  ]

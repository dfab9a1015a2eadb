-- ===== src/Database.antt =====
-- Go's `database/sql` as the repositories use it: autocommitted statements, and transactions with a
-- deferred rollback (`committed := false; defer func() { if !committed { tx.Rollback() } }()`).
-- The server and the driver are not code of the repository: whether the n-th call reaches the server
-- is the parameter `fault`, and what a statement does to the tables is given by each component.
pub mod Agrees
pub mod Preserves
use stock_backend.Prelude.{ℕ, suc, Option, none, some}

pub data Result {ℓ} (E A : Type ℓ) : Type ℓ where
  ok : A → Result E A
  err : E → Result E A

-- `durable` is what other transactions see, `working` what the open transaction sees.
pub record Conn (T : Type 0) : Type 0 where
  pub durable : T
  pub working : T
  pub calls : ℕ
  pub fault : ℕ → Option ℕ

abbrev pub Exec : Type 0 → Type 0 → Type 0 → Type 0
Exec T E A = Conn T → Result E A × Conn T

module _ {T E A : Type 0} where
  abbrev pub pure : A → Exec T E A
  pure a c = (ok a, c)

  abbrev pub fail : E → Exec T E A
  fail e c = (err e, c)

  abbrev pub applied : Conn T → Result E (A × T) → Result E A × Conn T
  applied c (ok (a, t)) = (ok a, record c { working = t; calls = suc c.calls })
  applied c (err e) = (err e, record c { calls = suc c.calls })

  -- One call of the driver. A call that fails changes no row.
  abbrev pub statement : (ℕ → E) → (T → Result E (A × T)) → Exec T E A
  statement wrap f c = elim (c.fault c.calls) [
    | none ↦ applied c (f c.working)
    | some x ↦ (err (wrap x), record c { calls = suc c.calls })
  ]

  abbrev pub query : (ℕ → E) → (T → A) → Exec T E A
  query wrap f = statement wrap (λ t. ok (f t, t))

  -- The deferred rollback: what is not committed when the function returns is dropped.
  abbrev pub rolled_back : Result E A × Conn T → Result E A × Conn T
  rolled_back (r, c) = (r, record c { working = c.durable })

  abbrev pub deferred_rollback : Exec T E A → Exec T E A
  deferred_rollback m c = rolled_back (m c)

  abbrev pub settled : Result E A × Conn T → Result E A × Conn T
  settled (r, c) = (r, record c { durable = c.working })

  -- A statement outside a transaction takes effect at once.
  abbrev pub autocommit : Exec T E A → Exec T E A
  autocommit m c = settled (m (record c { working = c.durable }))

module _ {T E : Type 0} where
  abbrev pub execute : (ℕ → E) → (T → T) → Exec T E (Unit {0})
  execute wrap f = statement wrap (λ t. ok (tt, f t))

  abbrev pub begin : (ℕ → E) → Exec T E (Unit {0})
  begin wrap c = elim (c.fault c.calls) [
    | none ↦ (ok tt, record c { working = c.durable; calls = suc c.calls })
    | some x ↦ (err (wrap x), record c { calls = suc c.calls })
  ]

  abbrev pub commit : (ℕ → E) → Exec T E (Unit {0})
  commit wrap c = elim (c.fault c.calls) [
    | none ↦ (ok tt, record c { durable = c.working; calls = suc c.calls })
    | some x ↦ (err (wrap x), record c { calls = suc c.calls })
  ]

module _ {T E A B : Type 0} where
  abbrev pub continue : (A → Exec T E B) → Result E A × Conn T → Result E B × Conn T
  continue f (ok a, c) = f a c
  continue f (err e, c) = (err e, c)

  infixl 5 ◌>>=◌
  abbrev pub ◌>>=◌ : Exec T E A → (A → Exec T E B) → Exec T E B
  ◌>>=◌ m f c = continue f (m c)

infixl 5 ◌>>◌
abbrev pub ◌>>◌ : {T E A B : Type 0} → Exec T E A → Exec T E B → Exec T E B
m >> n = m >>= λ _. n

-- The rest of a function that inspects the error of a call itself.
abbrev pub inspect :
    {T E F A B : Type 0} → (Result E A → Exec T F B) → Result E A × Conn T → Result F B × Conn T
inspect k (r, c) = k r c

-- ===== src/Prelude/Int.antt =====
-- Integers by sign over the native numbers, for columns that go below 0.
use Prim.Native.Nat.{ℕ, zero, suc, ◌+◌, ◌^◌, ◌-◌}
use mathlib.Core.Path.{◌≡◌}
use mathlib.Core.Logic.{◌↔◌}
use mathlib.Core.Bool.{Bool, true, false}
use native.Mathlib.Omega.{arith}
use stock_backend.Prelude.Tests.{if◌then◌else◌, ltb, ◌==◌, nat_eq, Eq, nat_beq, nat_beq_iff}

-- `negsuc n` is -(n + 1).
pub data ℤ : Type 0 where
  pos : ℕ → ℤ
  negsuc : ℕ → ℤ

abbrev pub int_beq : ℤ → ℤ → Bool
int_beq (pos m) (pos n) = nat_beq m n
int_beq (negsuc m) (negsuc n) = nat_beq m n
int_beq (pos m) (negsuc n) = false
int_beq (negsuc m) (pos n) = false

pub int_beq_iff : (a b : ℤ) → (int_beq a b ≡ true) ↔ (a ≡ b)
int_beq_iff (pos m) (pos n) = ground (arith, nat_beq_iff m n)
int_beq_iff (negsuc m) (negsuc n) = ground (arith, nat_beq_iff m n)
int_beq_iff (pos m) (negsuc n) = ground arith
int_beq_iff (negsuc m) (pos n) = ground arith

instance abbrev pub int_eq : Eq ℤ
int_eq = record { beq_iff = int_beq_iff; beq = int_beq }

abbrev pub ltb_ℤ : ℤ → ℤ → Bool
ltb_ℤ (pos m) (pos n) = ltb m n
ltb_ℤ (negsuc m) (pos n) = true
ltb_ℤ (pos m) (negsuc n) = false
ltb_ℤ (negsuc m) (negsuc n) = ltb n m

abbrev pub max_int64 : ℕ
max_int64 = 2 ^ 63 - 1

-- `a + 1` on int64.
unfoldable pub succ_int64 : ℤ → ℤ
succ_int64 (pos n) = if n == max_int64 then negsuc max_int64 else pos (n + 1)
succ_int64 (negsuc zero) = pos 0
succ_int64 (negsuc (suc n)) = negsuc n

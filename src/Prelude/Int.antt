-- ===== src/Prelude/Int.antt =====
-- C's `int`, where it carries a negative error code, a secondary address or a handle.
use Prim.Native.Nat.{ℕ}
use mathlib.Core.Path.{◌≡◌}
use mathlib.Core.Logic.{◌↔◌}
use mathlib.Core.Bool.{Bool, true, false}
use native.Mathlib.Omega.{arith}
use linux_gpib.Prelude.Tests.{◌==◌}

-- `negsuc n` is -(n + 1).
pub data ℤ : Type 0 where
  pos : ℕ → ℤ
  negsuc : ℕ → ℤ

-- `retval < 0`
abbrev pub is_neg : ℤ → Bool
is_neg (pos n) = false
is_neg (negsuc n) = true

infix 50 ◌==ℤ◌
abbrev pub ◌==ℤ◌ : ℤ → ℤ → Bool
pos a ==ℤ pos b = a == b
negsuc a ==ℤ negsuc b = a == b
pos a ==ℤ negsuc b = false
negsuc a ==ℤ pos b = false

pub ==ℤ_iff : (a b : ℤ) → ((a ==ℤ b) ≡ true) ↔ (a ≡ b)
==ℤ_iff a b = ground arith

-- ===== src/Prelude/Int.antt =====
-- Integers over the native numbers, and Go's int32: its bit pattern, and what the pattern stands for.
use Prim.Native.Nat.{ℕ, ◌+◌, ◌-◌, ◌%◌, ◌<◌}
use mathlib.Core.Path.{◌≡◌, refl}
use native.Mathlib.Omega.{arith}
use rh_kernel_module_managem.Prelude.Tests.{ltb, if◌then◌else◌}

-- `negsuc n` is -(n + 1).
pub data ℤ : Type 0 where
  pos negsuc : ℕ → ℤ

-- The bits of an int32 after a conversion from int or an addition, as a number below 2 ^ 32.
abbrev pub int32 : ℕ → ℕ
int32 n = n % 4294967296

-- the number that the bits stand for
abbrev pub signed32 : ℕ → ℤ
signed32 w = if ltb w 2147483648 then pos w else negsuc (4294967295 - w)

signed32_examples :
    (signed32 (int32 (2147483647 + 1)) ≡ negsuc 2147483647) × (signed32 4294967295 ≡ negsuc 0)
signed32_examples = (refl, refl)

pub signed32-int32 : (n : ℕ) → n < 2147483648 → signed32 (int32 n) ≡ pos n
signed32-int32 n h = ground arith

-- ===== src/Base/Int.antt =====
-- Go `int` and `time.Duration` values that the code only tests for their sign or compares.
use Prim.Native.Nat.{ℕ, ◌+◌, ◌-◌, ◌*◌, ◌%◌}
use mathlib.Core.Bool.{Bool, true, false}
use vk_turn_proxy_go.Base.Tests.{ltb, if◌then◌else◌}

-- `negsuc n` is -(n + 1).
pub data ℤ : Type 0 where
  pos : ℕ → ℤ
  negsuc : ℕ → ℤ

-- The test `0 < z`.
abbrev pub is_pos : ℤ → Bool
is_pos (pos n) = ltb 0 n
is_pos (negsuc n) = false

-- The test `z < 0`.
abbrev pub is_neg : ℤ → Bool
is_neg (pos n) = false
is_neg (negsuc n) = true

-- The test `y < z`.
abbrev pub int_ltb : ℤ → ℤ → Bool
int_ltb (pos m) (pos n) = ltb m n
int_ltb (pos m) (negsuc n) = false
int_ltb (negsuc m) (pos n) = true
int_ltb (negsuc m) (negsuc n) = ltb n m

-- The int64 with these 64 bits.
abbrev pub int64 : ℕ → ℤ
int64 bits = if ltb bits 9223372036854775808 then pos bits else negsuc (18446744073709551615 - bits)

-- `time.Duration(z) * time.Second`, which wraps around.
unfoldable pub seconds : ℤ → ℤ
seconds (pos n) = int64 ((n * 1000000000) % 18446744073709551616)
seconds (negsuc n) =
    let m = ((n + 1) * 1000000000) % 18446744073709551616 in
    int64 ((18446744073709551616 - m) % 18446744073709551616)

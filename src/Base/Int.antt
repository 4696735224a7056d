-- ===== src/Base/Int.antt =====
-- Signed integers over the native numbers, as an `i32` or `i64` field holds them.
use Prim.Native.Nat.{ℕ}
use mathlib.Core.Bool.{Bool, true, false}
use mathlib.Core.Option.{Option, none, some}
use aws_net_hound.Base.Tests.{ltb, if◌then◌else◌}

-- `negsuc n` is -(n + 1).
pub data ℤ : Type 0 where
  pos : ℕ → ℤ
  negsuc : ℕ → ℤ

abbrev pub is_negative : ℤ → Bool
is_negative (pos n) = false
is_negative (negsuc n) = true

-- `u16::try_from` on a signed integer.
abbrev pub to_u16 : ℤ → Option ℕ
to_u16 (pos n) = if ltb n 65536 then some n else none
to_u16 (negsuc n) = none

-- ===== src/Prelude/Int.antt =====
-- Python's integers, as far as the code compares them with bounds.
use Prim.Native.Nat.{ℕ}
use mathlib.Core.Bool.{◌&&◌}
use mathlib.Core.Option.{Option, none, some}
use wolt.Prelude.Tests.{leb, if◌then◌else◌}

-- `negsuc n` is -(n + 1).
pub data ℤ : Type 0 where
  pos : ℕ → ℤ
  negsuc : ℕ → ℤ

-- The number, if `low <= n <= high`.
abbrev pub between : ℕ → ℕ → ℤ → Option ℕ
between low high (pos n) = if leb low n && leb n high then some n else none
between low high (negsuc n) = none

-- ===== src/Prelude/Ints.antt =====
-- Signed machine counts as integers over the native numbers, under the library's names.
use artmap.Prelude.Tests.{leb, if◌then◌else◌}
use Prim.Native.Nat.{ℕ, ◌-◌}

-- `negsuc n` is -(n + 1).
pub data ℤ : Type 0 where
  pos : ℕ → ℤ
  negsuc : ℕ → ℤ

-- a - b, as an integer
abbrev pub sub_ℕ : ℕ → ℕ → ℤ
sub_ℕ a b = if leb b a then pos (a - b) else negsuc (b - a - 1)

-- ===== src/Base/Words.antt =====
-- Machine words as native numbers: Rust's saturating and wrapping operations.
use Prim.Native.Nat.{ℕ, ◌+◌, ◌*◌, ◌%◌}
use noire.Base.Tests.{ltb, if◌then◌else◌}

abbrev pub u16_max : ℕ
u16_max = 0xffff

abbrev pub u32_max : ℕ
u32_max = 0xffff_ffff

abbrev pub u64_max : ℕ
u64_max = 0xffff_ffff_ffff_ffff

-- `a.saturating_add(b)` at the type whose largest value is `limit`.
abbrev pub saturating_add : (limit a b : ℕ) → ℕ
saturating_add limit a b = if ltb limit (a + b) then limit else a + b

abbrev pub saturating_mul : (limit a b : ℕ) → ℕ
saturating_mul limit a b = if ltb limit (a * b) then limit else a * b

-- `a += b` on a u64, as a release build computes it.
abbrev pub wrapping_add64 : ℕ → ℕ → ℕ
wrapping_add64 a b = (a + b) % 0x1_0000_0000_0000_0000

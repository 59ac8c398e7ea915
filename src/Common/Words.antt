-- ===== src/Common/Words.antt =====
-- Unsigned machine arithmetic, its wrap-around written out: UINTN, UINT64 and EFI_LBA have 64 bits.
use Prim.Native.Nat.{ℕ, ◌+◌, ◌-◌, ◌*◌, ◌%◌, ◌^◌, ◌<◌, ◌≤◌, min}
use mathlib.Core.Path.{◌≡◌}
use native.Mathlib.Omega.{arith}

abbrev pub u64 : ℕ
u64 = 2 ^ 64

abbrev pub u32 : ℕ
u32 = 2 ^ 32

abbrev pub add64 : ℕ → ℕ → ℕ
add64 a b = (a + b) % u64

abbrev pub sub64 : ℕ → ℕ → ℕ
sub64 a b = (a % u64 + u64 - b % u64) % u64

abbrev pub mul64 : ℕ → ℕ → ℕ
mul64 a b = (a * b) % u64

abbrev pub add32 : ℕ → ℕ → ℕ
add32 a b = (a + b) % u32

abbrev pub sub32 : ℕ → ℕ → ℕ
sub32 a b = (a % u32 + u32 - b % u32) % u32

pub mod_self_of_eq : (a b : ℕ) → 0 < b → a ≡ b → a % b ≡ 0
mod_self_of_eq a b h e = grind arith

pub add-sub_left : (a b : ℕ) → a + b - a ≡ b
add-sub_left a b = omega arith

pub min_right : (a b : ℕ) → b ≤ a → min a b ≡ b
min_right a b h = omega arith

-- ===== src/Prelude/Word.antt =====
-- Rust's machine integers in release builds: a number and the modulus that it wraps at.
use Prim.Native.Nat.{ℕ, ◌+◌, ◌-◌, ◌*◌, ◌%◌, ◌^◌, ◌<◌, ◌≤◌}
use mathlib.Core.Path.{◌≡◌}
use native.Mathlib.Omega.{arith}

abbrev pub u128_mod : ℕ
u128_mod = 2 ^ 128

abbrev pub u64_mod : ℕ
u64_mod = 2 ^ 64

abbrev pub u32_mod : ℕ
u32_mod = 2 ^ 32

abbrev pub add_u128 : ℕ → ℕ → ℕ
add_u128 a b = (a + b) % u128_mod

abbrev pub sub_u128 : ℕ → ℕ → ℕ
sub_u128 a b = (a + u128_mod - b) % u128_mod

abbrev pub mul_u128 : ℕ → ℕ → ℕ
mul_u128 a b = (a * b) % u128_mod

abbrev pub add_u64 : ℕ → ℕ → ℕ
add_u64 a b = (a + b) % u64_mod

-- Where the exact result fits, no wrap happens.
pub add_u128_exact : (a b : ℕ) → a + b < u128_mod → add_u128 a b ≡ a + b
add_u128_exact a b h = omega arith

pub sub_u128_exact : (a b : ℕ) → b ≤ a → a < u128_mod → sub_u128 a b ≡ a - b
sub_u128_exact a b h l = omega arith

pub mul_u128_exact : (a b : ℕ) → a * b < u128_mod → mul_u128 a b ≡ a * b
mul_u128_exact a b h = omega arith

-- ===== src/Prelude/Words.antt =====
-- Fixed-width unsigned arithmetic: a value is a plain number, and a store into a variable of
-- `w` bits takes the remainder by `2 ^ w`.
use Prim.Native.Nat.{ℕ, ◌%◌, ◌<◌}
use native.Mathlib.Omega.{arith}

abbrev pub u32 : ℕ → ℕ
u32 word = word % 4294967296

abbrev pub u16 : ℕ → ℕ
u16 word = word % 65536

abbrev pub u8 : ℕ → ℕ
u8 byte = byte % 256

pub u8-lt : (n : ℕ) → u8 n < 256
u8-lt n = omega arith

pub u16-lt : (n : ℕ) → u16 n < 65536
u16-lt n = omega arith

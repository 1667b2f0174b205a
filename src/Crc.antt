-- ===== src/Crc.antt =====
-- The CRC-8-CCITT update step of util/crc16.c, and the CRC of a sequence of bytes. On the target
-- the step comes from avr-libc: packets and the configuration block take it as a parameter.
pub mod Detect
pub mod Division
use bmsnode_firmware.Prelude.{
  ℕ, zero, suc, ◌+◌, ◌-◌, ◌*◌, ◌≡◌, refl, List, [], ◌∷◌, ◌++◌, leb, if◌then◌else◌, u8,
}
use Prim.Native.Nat.{bit_xor}

-- One round of the loop: `data & 0x80` is the top bit of the byte.
shift_round : ℕ → ℕ
shift_round x = if leb 0x80 x then bit_xor (u8 (x * 2)) 0x07 else u8 (x * 2)

rounds : ℕ → ℕ → ℕ
rounds zero x = x
rounds (suc n) x = rounds n (shift_round x)

unfoldable pub crc8_ccitt_update : ℕ → ℕ → ℕ
unfolding shift_round rounds
crc8_ccitt_update crc byte = rounds 8 (bit_xor crc byte)

module _ (update : ℕ → ℕ → ℕ) where
  -- The CRC of the bytes, started at `crc`.
  unfoldable pub crc_from : ℕ → List ℕ → ℕ
  crc_from crc [] = crc
  crc_from crc (b ∷ bs) = crc_from (update crc b) bs

  pub crc_from-append :
      (xs ys : List ℕ) (crc : ℕ) → crc_from crc (xs ++ ys) ≡ crc_from (crc_from crc xs) ys
  unfolding crc_from
  crc_from-append [] ys crc = refl
  crc_from-append (x ∷ xs) ys crc = crc_from-append xs ys (update crc x)

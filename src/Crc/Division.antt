-- ===== src/Crc/Division.antt =====
-- The crc of util/crc16.c is the remainder of a long division: of the message, followed by eight
-- zero bits, by x^8 + x^2 + x + 1, with coefficients modulo 2.
use bmsnode_firmware.Prelude.{
  ℕ, ◌+◌, ◌*◌, ◌/◌, ◌%◌, ◌<◌, ◌≡◌, refl, sym, ap, ◌∙◌, Bool, true, ◌&&◌, List, [], ◌∷◌, ◌++◌,
  append_assoc, arith, ltb, leb, ◌==◌, if◌then◌else◌, check_below, check_below_sound,
}
use Prim.Native.Nat.{bit_xor}
use bmsnode_firmware.Crc.{shift_round, rounds, crc8_ccitt_update, crc_from}
use bmsnode_firmware.Crc.Detect.{Bytes, both_below, both_below_sound}

-- The polynomial, with its leading coefficient.
abbrev pub divisor : ℕ
divisor = 0x107

-- Brings down one bit, and subtracts the divisor when it fits.
unfoldable pub div_step : ℕ → ℕ → ℕ
div_step rest bit = let next = rest * 2 + bit in if leb 256 next then bit_xor next divisor else next

-- The remainder of the bits behind `rest`.
unfoldable pub divide : ℕ → List ℕ → ℕ
divide rest [] = rest
divide rest (bit ∷ bits) = divide (div_step rest bit) bits

-- The bits of a byte, the highest first.
abbrev pub bits_of : ℕ → List ℕ
bits_of b =
    b / 128 % 2
    ∷ b / 64 % 2
    ∷ b / 32 % 2
    ∷ b / 16 % 2
    ∷ b / 8 % 2
    ∷ b / 4 % 2
    ∷ b / 2 % 2
    ∷ b % 2
    ∷ []

pub message_bits : List ℕ → List ℕ
message_bits [] = []
message_bits (b ∷ bs) = bits_of b ++ message_bits bs

-- Dividing one byte, by evaluation of every pair of bytes.
abbrev byte_test : ℕ → ℕ → Bool
byte_test rest b =
    divide rest (bits_of b) == bit_xor (rounds 8 rest) b && ltb (divide rest (bits_of b)) 256

byte_table : both_below byte_test ≡ true
unfolding both_below check_below rounds shift_round divide div_step
byte_table = refl

divide_byte :
    (rest b : ℕ)
    → rest < 256
    → b < 256
    → (divide rest (bits_of b) ≡ bit_xor (rounds 8 rest) b) × (divide rest (bits_of b) < 256)
divide_byte rest b p q = let t = both_below_sound byte_test rest b byte_table p q in ground arith

divide-append : (xs ys : List ℕ) (rest : ℕ) → divide rest (xs ++ ys) ≡ divide (divide rest xs) ys
unfolding divide
divide-append [] ys rest = refl
divide-append (x ∷ xs) ys rest = divide-append xs ys (div_step rest x)

zero_test_table : check_below 256 (λ r. bit_xor (rounds 8 r) 0 == rounds 8 r) ≡ true
unfolding check_below rounds shift_round
zero_test_table = refl

-- The zero bits at the end.
divide_zeros : (rest : ℕ) → rest < 256 → divide rest (bits_of 0) ≡ rounds 8 rest
divide_zeros rest h =
    let t =
      check_below_sound 256 (λ r. bit_xor (rounds 8 r) 0 == rounds 8 r) rest zero_test_table h in
    (divide_byte rest 0 h (omega arith)).0 ∙ ground (arith, t)

crc_from-divide :
    (bs : List ℕ) (rest : ℕ)
    → rest < 256
    → Bytes bs
    → crc_from crc8_ccitt_update (rounds 8 rest) bs ≡ divide rest (message_bits bs ++ bits_of 0)
unfolding crc_from message_bits crc8_ccitt_update
crc_from-divide [] rest h v = sym (divide_zeros rest h)
crc_from-divide (b ∷ bs) rest h v =
    let d = divide_byte rest b h v.0 in
    ap (λ r. crc_from crc8_ccitt_update (rounds 8 r) bs) (sym d.0)
    ∙ crc_from-divide bs (divide rest (bits_of b)) d.1 v.1
    ∙ sym (divide-append (bits_of b) (message_bits bs ++ bits_of 0) rest)
    ∙ ap (divide rest) (sym (append_assoc (bits_of b) (message_bits bs) (bits_of 0)))

-- The crc of bytes, computed byte by byte from 0, is the remainder of their bits, followed by
-- eight zeros, divided by the polynomial.
pub crc_from_remainder :
    (bs : List ℕ)
    → Bytes bs
    → crc_from crc8_ccitt_update 0 bs ≡ divide 0 (message_bits bs ++ bits_of 0)
unfolding rounds shift_round
crc_from_remainder bs v = crc_from-divide bs 0 (omega arith) v

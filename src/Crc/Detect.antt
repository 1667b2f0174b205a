-- ===== src/Crc/Detect.antt =====
-- The CRC-8-CCITT of util/crc16.c finds a wrong byte: its update step can be undone.
use bmsnode_firmware.Prelude.{
  ℕ, zero, suc, ◌<◌, ◌≡◌, refl, sym, ap, ◌∙◌, Bool, true, ◌&&◌, List, [], ◌∷◌, arith, ltb, ◌==◌,
  length, get_or, set, All, check_below, check_below_sound,
}
use Prim.Native.Nat.{bit_xor}
use bmsnode_firmware.Crc.{crc_from, shift_round, rounds, crc8_ccitt_update}

-- What holds of every pair of bytes, by evaluation.
unfoldable pub both_below : (ℕ → ℕ → Bool) → Bool
both_below test = check_below 256 (λ a. check_below 256 (test a))

pub both_below_sound :
    (test : ℕ → ℕ → Bool) (a b : ℕ) → both_below test ≡ true → a < 256 → b < 256 → test a b ≡ true
unfolding both_below
both_below_sound test a b h p q =
    check_below_sound 256 (test a) b (check_below_sound 256 (λ a. check_below 256 (test a)) a h p) q

abbrev xor_test : ℕ → ℕ → Bool
xor_test a b = bit_xor (bit_xor a b) a == b && bit_xor (bit_xor a b) b == a && ltb (bit_xor a b) 256

xor_table : both_below xor_test ≡ true
unfolding both_below check_below
xor_table = refl

-- The exclusive or of two bytes is a byte, from which the one gives the other.
pub bit_xor_bytes :
    (a b : ℕ)
    → a < 256
    → b < 256
    → (bit_xor (bit_xor a b) a ≡ b) × (bit_xor (bit_xor a b) b ≡ a) × (bit_xor a b < 256)
bit_xor_bytes a b p q = let t = both_below_sound xor_test a b xor_table p q in ground arith

-- A round is a multiplication by x modulo the polynomial, whose 127th power is 1: 119 more rounds
-- undo 8.
abbrev round_test : ℕ → Bool
round_test x = rounds 119 (rounds 8 x) == x && ltb (rounds 8 x) 256

round_table : check_below 256 round_test ≡ true
unfolding check_below rounds shift_round
round_table = refl

rounds_8 : (x : ℕ) → x < 256 → (rounds 119 (rounds 8 x) ≡ x) × (rounds 8 x < 256)
rounds_8 x h = let t = check_below_sound 256 round_test x round_table h in ground arith

pub update_byte : (c b : ℕ) → c < 256 → b < 256 → crc8_ccitt_update c b < 256
unfolding crc8_ccitt_update
update_byte c b p q = (rounds_8 (bit_xor c b) (bit_xor_bytes c b p q).2).1

-- From equal results, a byte that was the same on both sides gives the other.
update_injective :
    (c d a b : ℕ)
    → c < 256
    → d < 256
    → a < 256
    → b < 256
    → crc8_ccitt_update c a ≡ crc8_ccitt_update d b
    → bit_xor c a ≡ bit_xor d b
unfolding crc8_ccitt_update
update_injective c d a b hc hd ha hb e =
    let x = rounds_8 (bit_xor c a) (bit_xor_bytes c a hc ha).2 in
    let y = rounds_8 (bit_xor d b) (bit_xor_bytes d b hd hb).2 in sym x.0 ∙ ap (rounds 119) e ∙ y.0

update_same_byte :
    (c d b : ℕ)
    → c < 256
    → d < 256
    → b < 256
    → crc8_ccitt_update c b ≡ crc8_ccitt_update d b
    → c ≡ d
update_same_byte c d b hc hd hb e =
    sym (bit_xor_bytes c b hc hb).1
    ∙ ap (λ x. bit_xor x b) (update_injective c d b b hc hd hb hb e)
    ∙ (bit_xor_bytes d b hd hb).1

update_same_crc :
    (c a b : ℕ)
    → c < 256
    → a < 256
    → b < 256
    → crc8_ccitt_update c a ≡ crc8_ccitt_update c b
    → a ≡ b
update_same_crc c a b hc ha hb e =
    sym (bit_xor_bytes c a hc ha).0
    ∙ ap (λ x. bit_xor x c) (update_injective c c a b hc hc ha hb e)
    ∙ (bit_xor_bytes c b hc hb).0

abbrev pub Bytes : List ℕ → Type 0
Bytes bs = All (λ b. b < 256) bs

pub crc_from-byte :
    (bs : List ℕ) (c : ℕ) → c < 256 → Bytes bs → crc_from crc8_ccitt_update c bs < 256
unfolding crc_from
crc_from-byte [] c h v = h
crc_from-byte (b ∷ bs) c h v = crc_from-byte bs (crc8_ccitt_update c b) (update_byte c b h v.0) v.1

-- The crc after the same bytes tells two crcs before them apart.
crc_from_injective :
    (bs : List ℕ) (c d : ℕ)
    → c < 256
    → d < 256
    → Bytes bs
    → crc_from crc8_ccitt_update c bs ≡ crc_from crc8_ccitt_update d bs
    → c ≡ d
unfolding crc_from
crc_from_injective [] c d hc hd v e = e
crc_from_injective (b ∷ bs) c d hc hd v e =
    update_same_byte c d b hc hd v.0
      (crc_from_injective bs _ _ (update_byte c b hc v.0) (update_byte d b hd v.0) v.1 e)

-- One byte that differs changes the crc.
pub crc_from-set :
    (bs : List ℕ) (i x c : ℕ)
    → c < 256
    → x < 256
    → Bytes bs
    → i < length bs
    → crc_from crc8_ccitt_update c (set bs i x) ≡ crc_from crc8_ccitt_update c bs
    → x ≡ get_or bs i 0
unfolding crc_from
crc_from-set [] i x c hc hx v h e = absurd (omega arith)
crc_from-set (b ∷ bs) zero x c hc hx v h e =
    update_same_crc c x b hc hx v.0
      (crc_from_injective bs _ _ (update_byte c x hc hx) (update_byte c b hc v.0) v.1 e)
crc_from-set (b ∷ bs) (suc i) x c hc hx v h e =
    crc_from-set bs i x (crc8_ccitt_update c b) (update_byte c b hc v.0) hx v.1 (omega arith) e

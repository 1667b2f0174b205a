-- ===== src/Cfg/Corrupt.antt =====
-- A wrong byte in the EEPROM of src/cfg.c is found by `cfg_load`, with the crc of util/crc16.c.
use bmsnode_firmware.Prelude.{
  get_or-take, ℕ, zero, suc, ◌<◌, ◌≡◌, refl, sym, ap, ◌∙◌, ◌≢◌, inl, inr, false, List, [], ◌∷◌,
  arith, Bool-cases, length, get_or, set, take, get_or-set_self, get_or-set_ne, length-take,
  take-set_le,
}
use mathlib.Core.Path.{subst}
use native.Mathlib.Decide.{dec_lt}
use bmsnode_firmware.Crc.{crc8_ccitt_update, crc_from}
use bmsnode_firmware.Crc.Detect.{Bytes, crc_from-set}
use bmsnode_firmware.Cfg.{Cfg, Eeprom, cfg_load}
use bmsnode_firmware.Cfg.Block.{IsDefault}
use bmsnode_firmware.Cfg.Persist.{IsSealed, stored, cfg_load_lem}

Bytes-take : (n : ℕ) (bs : List ℕ) → Bytes bs → Bytes (take n bs)
Bytes-take zero bs v = tt
Bytes-take (suc n) [] v = tt
Bytes-take (suc n) (b ∷ bs) v = (v.0, Bytes-take n bs v.1)

take-set_in : (n : ℕ) (xs : List ℕ) (i x : ℕ) → i < n → take n (set xs i x) ≡ set (take n xs) i x
take-set_in zero xs i x h = absurd (omega arith)
take-set_in (suc n) [] i x h = refl
take-set_in (suc n) (y ∷ xs) zero x h = refl
take-set_in (suc n) (y ∷ xs) (suc i) x h = ap (λ l. y ∷ l) (take-set_in n xs i x (omega arith))

-- A sealed block with one byte changed is not sealed.
changed_byte :
    (b : List ℕ) (i x : ℕ)
    → IsSealed crc8_ccitt_update b
    → length b ≡ 26
    → Bytes b
    → x < 256
    → i < 26
    → IsSealed crc8_ccitt_update (set b i x)
    → x ≡ get_or b i 0
changed_byte b i x s n v hx hi t = elim (dec_lt i 25) [
  | yes low ↦
      let kept : get_or (set b i x) 25 0 ≡ get_or b 25 0 = get_or-set_ne b i 25 x 0 (omega arith) in
      let same = sym t.crc ∙ kept ∙ s.crc in
      let e = ap (crc_from crc8_ccitt_update 0) (sym (take-set_in 25 b i x low)) ∙ same in
      crc_from-set (take 25 b) i x 0 (omega arith) hx (Bytes-take 25 b v)
        (omega (arith, length-take 25 b (omega arith))) e
      ∙ get_or-take 25 b i 0 low
  | no high ↦
      let last : i ≡ 25 = omega arith in
      let before =
        ap (crc_from crc8_ccitt_update 0)
          (ap (λ j. take 25 (set b j x)) last ∙ take-set_le 25 b 25 x (omega arith)) in
      let now = ap (λ j. get_or (set b j x) 25 0) last ∙ get_or-set_self b 25 x 0 (omega arith) in
      sym now ∙ t.crc ∙ before ∙ sym s.crc ∙ ap (λ j. get_or b j 0) (sym last)
]

module _ (ee : Eeprom) where
  -- When the EEPROM holds a sealed block in which one byte, whichever it is, has been changed to
  -- another byte, `cfg_load` returns false and every parameter has its default.
  pub cfg_load_corrupted :
      (c : Cfg) (b : List ℕ) (i x : ℕ)
      → IsSealed crc8_ccitt_update b
      → length b ≡ 26
      → Bytes b
      → x < 256
      → i < 26
      → x ≢ get_or b i 0
      → stored crc8_ccitt_update ee c ≡ set b i x
      → let (d, ok) = cfg_load crc8_ccitt_update ee c in (ok ≡ false) × IsDefault d.parms
  cfg_load_corrupted c b i x s n v hx hi wrong e =
      let (sealed, whole, defaults, size, mem) = cfg_load_lem crc8_ccitt_update ee c in
      elim (Bool-cases (cfg_load crc8_ccitt_update ee c).1) [
        | inl ok ↦ absurd (
            wrong
              (changed_byte b i x s n v hx hi (subst (IsSealed crc8_ccitt_update) e (sealed.0 ok))))
        | inr bad ↦ (bad, defaults bad)
      ]

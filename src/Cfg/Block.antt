-- ===== src/Cfg/Block.antt =====
-- The configuration block of src/cfg.c in memory: its length, its defaults and its crc.
use bmsnode_firmware.Prelude.{
  ℕ, zero, suc, ◌+◌, ◌≤◌, ◌≡◌, refl, List, ◌++◌, arith, length, get_or, take, drop, length-append,
  drop_at, take-append_le, tabulate, spelled_out,
}
use mathlib.Core.Path.{subst}
use bmsnode_firmware.Crc.{crc_from}
use bmsnode_firmware.Cfg.Offset
use bmsnode_firmware.Cfg.{Cfg, get8, get16, load_defaults, crc_loop, cfg_compute_crc}

-- The values that every parameter has by default.
pub record IsDefault (block : List ℕ) : Type 0 where
  pub addr : get8 block Offset.addr ≡ 0
  pub vscale : get16 block Offset.vscale ≡ 4400
  pub voffset : get16 block Offset.voffset ≡ 0
  pub tscale : get16 block Offset.tscale ≡ 0
  pub toffset : get16 block Offset.toffset ≡ 0
  pub xscale : get16 block Offset.xscale ≡ 0
  pub xoffset : get16 block Offset.xoffset ≡ 0
  pub shuntmax : get16 block Offset.shuntmax ≡ 4100
  pub shuntmin : get16 block Offset.shuntmin ≡ 4000
  pub shunttime : get16 block Offset.shunttime ≡ 300
  pub temphi : get8 block Offset.temphi ≡ 50
  pub templo : get8 block Offset.templo ≡ 40
  pub tempadj : get16 block Offset.tempadj ≡ 0

abbrev spelled : List ℕ → List ℕ
spelled b = tabulate 26 0 (λ k. get_or b k 0)

-- The defaults fill every parameter of a block of 26 bytes.
pub load_defaults-IsDefault :
    (b : List ℕ) → length b ≡ 26 → IsDefault (load_defaults b) × (length (load_defaults b) ≡ 26)
unfolding load_defaults
load_defaults-IsDefault b h =
    subst (λ l. IsDefault (load_defaults l) × (length (load_defaults l) ≡ 26)) (spelled_out b 26 h)
      (omega arith, refl)

module _ (crc8 : ℕ → ℕ → ℕ) where
  -- The loop computes the crc of the bytes that it reads.
  crc_loop_lem :
      (n idx : ℕ) (mem : List ℕ) (crc : ℕ)
      → idx + n ≤ length mem
      → crc_loop crc8 n idx mem crc ≡ crc_from crc8 crc (take n (drop idx mem))
  unfolding crc_loop crc_from
  crc_loop_lem zero idx mem crc h = refl
  crc_loop_lem (suc n) idx mem crc h =
      rw (drop_at mem idx 0 (omega arith))
        (crc_loop_lem n (idx + 1) mem (crc8 crc (get_or mem idx 0)) (omega arith))

  -- For a block that states its true length the crc is that of its first 25 bytes, and nothing
  -- behind the block is read.
  pub cfg_compute_crc_lem :
      (c : Cfg)
      → length c.parms ≡ 26
      → get8 c.parms Offset.len ≡ 26
      → cfg_compute_crc crc8 c ≡ crc_from crc8 0 (take 25 c.parms)
  unfolding cfg_compute_crc
  cfg_compute_crc_lem c h e = rw (
    e,
    crc_loop_lem 25 0 (c.parms ++ c.ram_after) 0 (omega (arith, length-append c.parms c.ram_after)),
    take-append_le 25 c.parms c.ram_after (omega arith),
  )

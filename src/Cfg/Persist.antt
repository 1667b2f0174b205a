-- ===== src/Cfg/Persist.antt =====
-- The configuration of src/cfg.c survives in EEPROM: what is stored is loaded again, what is not a
-- sealed block is replaced by the defaults, and a reset leaves no sealed block.
use bmsnode_firmware.Prelude.{
  ℕ, ◌-◌, ◌≤◌, ◌<◌, ◌≡◌, refl, sym, ap, ◌∙◌, ◌↔◌, inl, inr, Bool, true, false, List, arith,
  Bool-cases, length, get_or, set, take, length-set, get_or-set_self, get_or-set_ne, take-set_le,
}
use mathlib.Core.Path.{subst}
use bmsnode_firmware.Crc.{crc_from}
use bmsnode_firmware.Cfg.Offset
use bmsnode_firmware.Cfg.{
  Cfg, Eeprom, sizeof_config, cfg_type_2, get8, cfg_compute_crc, read_parms, block_ok, cfg_load,
  seal, update_eeprom, spoil_crc, cfg_store, cfg_reset,
}
use bmsnode_firmware.Cfg.Block.{IsDefault, load_defaults-IsDefault, cfg_compute_crc_lem}

not_true : (b : Bool) → ¬ (b ≡ true) → b ≡ false
not_true b h = ground arith

module _ (crc8 : ℕ → ℕ → ℕ) where
  -- A block that `cfg_load` accepts: length, type and crc are right.
  pub record IsSealed (block : List ℕ) : Type 0 where
    pub len : get8 block Offset.len ≡ sizeof_config
    pub type : get8 block Offset.type ≡ cfg_type_2
    pub crc : get8 block Offset.crc ≡ crc_from crc8 0 (take 25 block)

  module _ (ee : Eeprom) where
    -- What `cfg_load` finds in the EEPROM.
    abbrev pub stored : Cfg → List ℕ
    stored c = ee.read_block c.eeprom sizeof_config

    block_ok-IsSealed :
        (c : Cfg) → length c.parms ≡ 26 → (block_ok crc8 ee c ≡ true) ↔ IsSealed c.parms
    block_ok-IsSealed c h = (
      λ e. ground (arith, cfg_compute_crc_lem crc8 c h),
      λ s. ground (arith, cfg_compute_crc_lem crc8 c h),
    )

    -- `cfg_load` returns true exactly when the EEPROM holds a sealed block, and then the block is
    -- the configuration; otherwise every parameter has its default. The RAM behind the block, which
    -- a wrong length byte makes the crc loop read, does not matter.
    pub cfg_load_lem :
        (c : Cfg)
        → let (d, ok) = cfg_load crc8 ee c in
          ((ok ≡ true) ↔ IsSealed (stored c))
          × (ok ≡ true → d.parms ≡ stored c)
          × (ok ≡ false → IsDefault d.parms)
          × (length d.parms ≡ 26)
          × (d.eeprom ≡ c.eeprom)
    unfolding cfg_load
    cfg_load_lem c =
        let size = ee.length-read c.eeprom 26 in
        let good = block_ok-IsSealed (read_parms crc8 ee c) size in
        let defaults = load_defaults-IsDefault (stored c) size in
        elim (Bool-cases (block_ok crc8 ee (read_parms crc8 ee c))) [
          | inl e ↦ rw e ((λ x. good.0 e, λ x. refl), λ x. refl, λ x. cc, size, refl)
          | inr e ↦ rw e ((λ x. cc, λ x. cc (good.1 x)), λ x. cc, λ x. defaults.0, defaults.1, refl)
        ]

    -- The parameters of a block, without length, type and crc.
    abbrev pub SameParms : List ℕ → List ℕ → Type 0
    SameParms a b = (i : ℕ) → 2 ≤ i → i < 25 → get_or a i 0 ≡ get_or b i 0

    abbrev headed : Cfg → Cfg
    headed c = record c {
      parms = set (set c.parms Offset.len sizeof_config) Offset.type cfg_type_2;
    }

    pub seal_lem :
        (c : Cfg)
        → length c.parms ≡ 26
        → let s = seal crc8 ee c in
          IsSealed s.parms × (length s.parms ≡ 26) × SameParms s.parms c.parms
    seal_lem c h =
        let h1 = set c.parms 0 26 in
        let h2 = set h1 1 2 in
        let v = cfg_compute_crc crc8 (headed c) in
        let n1 : length h1 ≡ 26 = length-set c.parms 0 26 ∙ h in
        let n2 : length h2 ≡ 26 = length-set h1 1 2 ∙ n1 in
        let l2 : get8 h2 0 ≡ 26 =
          get_or-set_ne h1 1 0 2 0 (omega arith) ∙ get_or-set_self c.parms 0 26 0 (omega arith) in
        (
          record {
            len = get_or-set_ne h2 25 0 v 0 (omega arith) ∙ l2;
            type = get_or-set_ne h2 25 1 v 0 (omega arith) ∙ get_or-set_self h1 1 2 0 (omega arith);
            crc =
                get_or-set_self h2 25 v 0 (omega arith)
                ∙ cfg_compute_crc_lem crc8 (headed c) n2 l2
                ∙ ap (λ l. crc_from crc8 0 l) (sym (take-set_le 25 h2 25 v (omega arith)));
          },
          length-set h2 25 v ∙ n2,
          λ i lo hi.
              get_or-set_ne h2 25 i v 0 (omega arith)
              ∙ get_or-set_ne h1 1 i 2 0 (omega arith)
              ∙ get_or-set_ne c.parms 0 i 26 0 (omega arith),
        )

    -- After `cfg_store` the EEPROM holds a sealed block with the parameters of the configuration,
    -- and whatever happens to the RAM, a later `cfg_load` of that EEPROM succeeds and restores all
    -- of them.
    pub cfg_store-cfg_load :
        (c later : Cfg)
        → length c.parms ≡ 26
        → later.eeprom ≡ (cfg_store crc8 ee c).eeprom
        → let (d, ok) = cfg_load crc8 ee later in
          (ok ≡ true) × (d.parms ≡ (cfg_store crc8 ee c).parms) × SameParms d.parms c.parms
    unfolding cfg_store
    cfg_store-cfg_load c later h e =
        let (sealed, size, same) = seal_lem c h in
        let back : stored later ≡ (seal crc8 ee c).parms =
          ap (λ m. ee.read_block m 26) e ∙ ee.read-update c.eeprom (seal crc8 ee c).parms 26 size in
        let l = cfg_load_lem later in
        let ok = l.0.1 (subst IsSealed (sym back) sealed) in
        (ok, l.1 ok ∙ back, subst (λ b. SameParms b c.parms) (sym (l.1 ok ∙ back)) same)

    spoiled :
        (c : Cfg)
        → length c.parms ≡ 26
        → let s = spoil_crc crc8 ee (seal crc8 ee c) in
          (¬ (IsSealed s.parms)) × (length s.parms ≡ 26)
    spoiled c h =
        let (sealed, size, same) = seal_lem c h in
        let b = (seal crc8 ee c).parms in
        let v = 255 - get8 b 25 in
        let kept = take-set_le 25 b 25 v (omega arith) in
        let got = get_or-set_self b 25 v 0 (omega arith) in
        (
          λ bad.
              omega (arith, sym got ∙ bad.crc ∙ ap (λ l. crc_from crc8 0 l) kept ∙ sym sealed.crc),
          length-set b 25 v ∙ size,
        )

    -- `cfg_reset` leaves the defaults in every parameter, and so does every later `cfg_load` of the
    -- EEPROM that it leaves, which returns false.
    pub cfg_reset_lem :
        (c later : Cfg)
        → length c.parms ≡ 26
        → later.eeprom ≡ (cfg_reset crc8 ee c).eeprom
        → let (d, ok) = cfg_load crc8 ee later in
          IsDefault (cfg_reset crc8 ee c).parms × (ok ≡ false) × IsDefault d.parms
    unfolding cfg_reset
    cfg_reset_lem c later h e =
        let t = update_eeprom crc8 ee (spoil_crc crc8 ee (seal crc8 ee c)) in
        let (bad, size) = spoiled c h in
        let back : stored t ≡ (spoil_crc crc8 ee (seal crc8 ee c)).parms =
          ee.read-update c.eeprom _ 26 size in
        let first = cfg_load_lem t in
        let again = cfg_load_lem later in
        let refused : ¬ (IsSealed (stored t)) = λ s. bad (subst IsSealed back s) in
        let same : stored later ≡ stored t = ap (λ m. ee.read_block m 26) (e ∙ first.4) in
        let no1 = not_true (cfg_load crc8 ee t).1 (λ x. refused (first.0.0 x)) in
        let no2 =
          not_true (cfg_load crc8 ee later).1 (λ x. refused (subst IsSealed same (again.0.0 x))) in
        (first.2 no1, no2, again.2 no2)

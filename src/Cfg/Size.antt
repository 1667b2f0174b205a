-- ===== src/Cfg/Size.antt =====
-- The configuration block of src/cfg.c keeps its size of 26 bytes under every operation.
use bmsnode_firmware.Prelude.{ℕ, ◌≡◌, ◌∙◌, List, arith, length, get_or}
use bmsnode_firmware.Cfg.{
  Cfg, Eeprom, seal, update_eeprom, spoil_crc, write_parm, cfg_load, cfg_store, cfg_reset, cfg_set,
}
use bmsnode_firmware.Cfg.Parm.{length-write_parm}
use bmsnode_firmware.Cfg.Persist.{cfg_load_lem, seal_lem}

abbrev pub IsBlock : Cfg → Type 0
IsBlock c = length c.parms ≡ 26

module _ (crc8 : ℕ → ℕ → ℕ) (ee : Eeprom) where
  pub cfg_store-IsBlock : (c : Cfg) → IsBlock c → IsBlock (cfg_store crc8 ee c)
  unfolding cfg_store
  cfg_store-IsBlock c h = (seal_lem crc8 ee c h).1

  pub cfg_load-IsBlock : (c : Cfg) → IsBlock (cfg_load crc8 ee c).0
  cfg_load-IsBlock c = (cfg_load_lem crc8 ee c).3

  pub cfg_reset-IsBlock : (c : Cfg) → IsBlock (cfg_reset crc8 ee c)
  unfolding cfg_reset
  cfg_reset-IsBlock c =
      cfg_load-IsBlock (update_eeprom crc8 ee (spoil_crc crc8 ee (seal crc8 ee c)))

  pub cfg_set-IsBlock :
      (c : Cfg) (len : ℕ) (value : List ℕ) → IsBlock c → IsBlock (cfg_set crc8 ee c len value).0
  unfolding cfg_set
  cfg_set-IsBlock c len value h =
      let id = get_or value 0 0 in
      let w = record c { parms = write_parm crc8 ee id value c.parms } in
      ground (arith, cfg_store-IsBlock w (length-write_parm crc8 ee id value c.parms ∙ h))

-- ===== src/Tests/Store.antt =====
-- The configuration in its memory, and the timers in their list.
use bmsnode_firmware.Prelude.{
  ℕ, ◌+◌, ◌<◌, ◌≡◌, refl, ◌≢◌, true, false, ◌&&◌, List, [], ◌∷◌, ◌++◌, arith, ltb, leb, u16, get_or,
  set, take,
}
use bmsnode_firmware.Crc.{crc8_ccitt_update}
use bmsnode_firmware.Tests.Data.{parms, cfg, eeprom, tmr}
use bmsnode_firmware.Cfg.{Cfg, cfg_load, cfg_store, cfg_set, cfg_reset, parm_count}
use bmsnode_firmware.Crc.{crc_from}
use bmsnode_firmware.Crc.Detect.{Bytes, crc_from-byte}
use bmsnode_firmware.Cfg.Corrupt.{cfg_load_corrupted}
use bmsnode_firmware.Cfg.Block.{IsDefault}
use bmsnode_firmware.Cfg.Persist.{IsSealed, SameParms, cfg_store-cfg_load, cfg_reset_lem}
use bmsnode_firmware.Cfg.Parm.{IsParm, parm_bytes, value_bytes, cfg_set_accepts, cfg_set_value}
use bmsnode_firmware.LinkedList.{Ptr, Links, null, list_remove, update}
use bmsnode_firmware.LinkedList.Chain.{has, IsList, erase, list_remove-IsList}
use bmsnode_firmware.Tmr.{Tmr, tmr_set, tmr_expired, tmr_process}
use bmsnode_firmware.Tmr.Expiry.{tmr_expired-set}
use bmsnode_firmware.Tmr.Schedule.{Processed, first_expired, tmr_process_lem}

-- The upper voltage threshold, 4200 mV.
abbrev payload : List ℕ
payload = 8 ∷ 0x68 ∷ 0x10 ∷ []

-- The configuration as it is stored, in a node that has just started.
abbrev restarted : Cfg
restarted = cfg_store crc8_ccitt_update eeprom cfg

abbrev reset : Cfg
reset = cfg_reset crc8_ccitt_update eeprom cfg

abbrev changed : Cfg
changed = (cfg_set crc8_ccitt_update eeprom cfg 3 payload).0

has_two : 3 ≡ parm_count 8 + 1
unfolding parm_count
has_two = refl

accepted : (cfg_set crc8_ccitt_update eeprom cfg 3 payload).1 ≡ true
accepted =
    (cfg_set_accepts crc8_ccitt_update eeprom cfg 3 payload).0.1
      ((omega arith, omega arith), has_two)

-- The timers at the addresses 3 and 2, in this order.
abbrev links : Links
links = update (update (λ a. 0) 1 3) 3 2

abbrev timers : Tmr
timers = record tmr { p_next = links; timeout = update (λ a. 64000) 2 500 }

links_ok : IsList links 1 (3 ∷ 2 ∷ [])
links_ok = ground arith

cfg_store-cfg_load_example :
    let (d, ok) = cfg_load crc8_ccitt_update eeprom restarted in
    (ok ≡ true)
    × (d.parms ≡ (cfg_store crc8_ccitt_update eeprom cfg).parms)
    × SameParms crc8_ccitt_update eeprom d.parms cfg.parms
cfg_store-cfg_load_example = cfg_store-cfg_load crc8_ccitt_update eeprom cfg restarted refl refl

cfg_set_value_example :
    let d = (cfg_set crc8_ccitt_update eeprom cfg 3 payload).0 in
    let id = get_or payload 0 0 in
    (parm_bytes id d.parms ≡ value_bytes id payload)
    × ((j : ℕ) → IsParm j → id ≢ j → parm_bytes j d.parms ≡ parm_bytes j cfg.parms)
    × ((cfg_load crc8_ccitt_update eeprom changed).1 ≡ true)
    × ((cfg_load crc8_ccitt_update eeprom changed).0.parms ≡ d.parms)
cfg_set_value_example =
    cfg_set_value crc8_ccitt_update eeprom cfg changed 3 payload refl accepted refl

list_remove-IsList_example :
    let g = list_remove 3 links 1 2 in
    IsList g 1 (erase 2 (3 ∷ 2 ∷ []))
    × (has 2 (3 ∷ 2 ∷ []) ≡ true → g 2 ≡ null)
    × ((a : Ptr) → has a (1 ∷ (3 ∷ 2 ∷ [])) ≡ false → g a ≡ links a)
list_remove-IsList_example =
    list_remove-IsList {h = links} 3 1 2 (3 ∷ 2 ∷ []) links_ok (ground arith) (omega arith)

tmr_process_lem_example :
    let (u, p) = tmr_process 3 timers in
    (p ≡ first_expired timers (3 ∷ 2 ∷ [])) × Processed timers (3 ∷ 2 ∷ []) p u
tmr_process_lem_example = tmr_process_lem 3 timers (3 ∷ 2 ∷ []) links_ok (omega arith)

tmr_expired-set_example :
    tmr_expired (u16 (65000 + 600)) (tmr_set 65000 1000) ≡ (leb 1000 600 && ltb 600 (1000 + 32768))
tmr_expired-set_example = tmr_expired-set 65000 1000 600 (omega arith) (omega arith)

-- A sealed block, and an EEPROM that holds it with the low byte of a voltage changed.
abbrev front : List ℕ
front = take 25 parms

abbrev block : List ℕ
block = front ++ crc_from crc8_ccitt_update 0 front ∷ []

block-IsSealed : IsSealed crc8_ccitt_update block
block-IsSealed = record { len = refl; type = refl; crc = refl }

Bytes-append_one : (bs : List ℕ) (b : ℕ) → Bytes bs → b < 256 → Bytes (bs ++ b ∷ [])
Bytes-append_one [] b v h = (h, tt)
Bytes-append_one (x ∷ bs) b v h = (v.0, Bytes-append_one bs b v.1 h)

front-Bytes : Bytes front
front-Bytes = ground arith

block-Bytes : Bytes block
block-Bytes =
    Bytes-append_one front (crc_from crc8_ccitt_update 0 front) front-Bytes
      (crc_from-byte front 0 (omega arith) front-Bytes)

abbrev worn : Cfg
worn = record cfg { eeprom = set block 3 0x31 }

cfg_load_corrupted_example :
    let (d, ok) = cfg_load crc8_ccitt_update eeprom worn in (ok ≡ false) × IsDefault d.parms
cfg_load_corrupted_example =
    cfg_load_corrupted eeprom worn block 3 0x31 block-IsSealed refl block-Bytes (omega arith)
      (omega arith) (ground arith) refl

cfg_reset_lem_example :
    let (d, ok) = cfg_load crc8_ccitt_update eeprom reset in
    IsDefault (cfg_reset crc8_ccitt_update eeprom cfg).parms × (ok ≡ false) × IsDefault d.parms
cfg_reset_lem_example = cfg_reset_lem crc8_ccitt_update eeprom cfg reset refl refl

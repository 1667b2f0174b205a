-- ===== src/Cfg.antt =====
-- The node configuration of src/cfg.c and src/cfg.h: a packed block of 26 bytes in RAM, its copy
-- in EEPROM with a crc, and the parameter table of the SETPARM and GETPARM commands.
pub mod Offset
pub mod Block
pub mod Persist
pub mod Parm
pub mod Size
pub mod Corrupt
use bmsnode_firmware.Prelude.{
  ℕ, zero, suc, ◌+◌, ◌-◌, ◌*◌, ◌/◌, ◌%◌, ◌≡◌, Bool, true, false, ◌&&◌, ◌||◌, List, [], ◌∷◌, ◌++◌,
  ltb, leb, ◌==◌, if◌then◌else◌, length, get_or, set,
}

-- The EEPROM functions of avr-libc that the code calls, on the contents of the EEPROM from
-- CFG_ADDR on: they copy a block as a whole.
pub record Eeprom : Type 0 where
  pub read_block : List ℕ → ℕ → List ℕ
  pub update_block : List ℕ → List ℕ → ℕ → List ℕ
  pub length-read : (mem : List ℕ) (n : ℕ) → length (read_block mem n) ≡ n
  pub read-update :
      (mem buf : List ℕ) (n : ℕ) → length buf ≡ n → read_block (update_block mem buf n) n ≡ buf

-- `g_cfg_parms` as its bytes, the RAM behind it, `g_board_type`, the EEPROM from CFG_ADDR on, and
-- the board data written at production.
pub record Cfg : Type 0 where
  pub parms : List ℕ
  pub ram_after : List ℕ
  pub board_type : ℕ
  pub eeprom : List ℕ
  pub uid_cell : ℕ
  pub board_type_cell : ℕ

abbrev pub sizeof_config : ℕ
sizeof_config = 26

abbrev pub cfg_type_2 : ℕ
cfg_type_2 = 2

-- A field of one byte, and of two bytes, the low one first.
abbrev pub get8 : List ℕ → ℕ → ℕ
get8 block i = get_or block i 0

abbrev pub get16 : List ℕ → ℕ → ℕ
get16 block i = get_or block i 0 + 256 * get_or block (i + 1) 0

abbrev pub set16 : List ℕ → ℕ → ℕ → List ℕ
set16 block i v = set (set block i (v % 256)) (i + 1) (v / 256)

unfoldable pub cfg_uid : Cfg → ℕ
cfg_uid c = c.uid_cell

unfoldable pub cfg_board_type : Cfg → ℕ
cfg_board_type c = c.board_type_cell

-- The assignments at the end of `cfg_load`.
unfoldable pub load_defaults : List ℕ → List ℕ
load_defaults b =
    let b = set b Offset.addr 0 in
    let b = set16 b Offset.vscale 4400 in
    let b = set16 b Offset.voffset 0 in
    let b = set16 b Offset.tscale 0 in
    let b = set16 b Offset.toffset 0 in
    let b = set16 b Offset.xscale 0 in
    let b = set16 b Offset.xoffset 0 in
    let b = set16 b Offset.shuntmax 4100 in
    let b = set16 b Offset.shuntmin 4000 in
    let b = set16 b Offset.shunttime 300 in
    let b = set b Offset.temphi 50 in let b = set b Offset.templo 40 in set16 b Offset.tempadj 0

-- `parmtable`: the index and the count of each parameter.
abbrev pub parmtable : List (ℕ × ℕ)
parmtable =
    (0, 0)
    ∷ (2, 1)
    ∷ (3, 2)
    ∷ (5, 2)
    ∷ (7, 2)
    ∷ (9, 2)
    ∷ (11, 2)
    ∷ (13, 2)
    ∷ (15, 2)
    ∷ (17, 2)
    ∷ (19, 2)
    ∷ (21, 1)
    ∷ (22, 1)
    ∷ (23, 2)
    ∷ []

abbrev pub max_parmid : ℕ
max_parmid = 13

unfoldable pub parm_index : ℕ → ℕ
parm_index id = (get_or parmtable id (0, 0)).0

unfoldable pub parm_count : ℕ → ℕ
parm_count id = (get_or parmtable id (0, 0)).1

abbrev pub is_bad_id : ℕ → Bool
is_bad_id id = ltb id 1 || ltb max_parmid id

module _ (crc8 : ℕ → ℕ → ℕ) where
  -- `n` bytes of memory from `idx` on.
  pub crc_loop : ℕ → ℕ → List ℕ → ℕ → ℕ
  crc_loop zero idx mem crc = crc
  crc_loop (suc n) idx mem crc = crc_loop n (idx + 1) mem (crc8 crc (get_or mem idx 0))

  -- The loop runs to the length that the block states, also past the block's end: then it reads
  -- the RAM behind it.
  pub cfg_compute_crc : Cfg → ℕ
  unfolding crc_loop
  cfg_compute_crc c = crc_loop (get8 c.parms Offset.len - 1) 0 (c.parms ++ c.ram_after) 0

  module _ (ee : Eeprom) where
    abbrev pub read_parms : Cfg → Cfg
    read_parms c = record c {
      board_type = cfg_board_type c;
      parms = ee.read_block c.eeprom sizeof_config;
    }

    abbrev pub block_ok : Cfg → Bool
    block_ok c =
        get8 c.parms Offset.type == cfg_type_2
        && get8 c.parms Offset.len == sizeof_config
        && cfg_compute_crc c == get8 c.parms Offset.crc

    unfoldable pub cfg_load : Cfg → Cfg × Bool
    unfolding load_defaults cfg_board_type cfg_compute_crc
    cfg_load c =
        let d = read_parms c in
        if block_ok d then (d, true) else (record d { parms = load_defaults d.parms }, false)

    -- The header fields and the crc of `cfg_commit`.
    abbrev pub seal : Cfg → Cfg
    seal c =
        let d = record c {
          parms = set (set c.parms Offset.len sizeof_config) Offset.type cfg_type_2;
        } in
        record d { parms = set d.parms Offset.crc (cfg_compute_crc d) }

    abbrev pub update_eeprom : Cfg → Cfg
    update_eeprom c = record c { eeprom = ee.update_block c.eeprom c.parms sizeof_config }

    -- `~crc` in one byte.
    abbrev pub spoil_crc : Cfg → Cfg
    spoil_crc c = record c { parms = set c.parms Offset.crc (255 - get8 c.parms Offset.crc) }

    unfoldable pub cfg_commit : Bool → Cfg → Cfg
    unfolding cfg_load
    cfg_commit reset c =
        if reset then (cfg_load (update_eeprom (spoil_crc (seal c)))).0 else update_eeprom (seal c)

    unfoldable pub cfg_store : Cfg → Cfg
    unfolding cfg_commit
    cfg_store c = cfg_commit false c

    unfoldable pub cfg_reset : Cfg → Cfg
    unfolding cfg_commit
    cfg_reset c = cfg_commit true c

    -- The bytes that `cfg_set` copies into the block.
    abbrev pub write_parm : ℕ → List ℕ → List ℕ → List ℕ
    write_parm id p_value block =
        let b = set block (parm_index id) (get_or p_value 1 0) in
        if parm_count id == 2 then set b (parm_index id + 1) (get_or p_value 2 0) else b

    unfoldable pub cfg_set : Cfg → ℕ → List ℕ → Cfg × Bool
    unfolding cfg_store parm_index parm_count
    cfg_set c len p_value =
        let id = get_or p_value 0 0 in
        if is_bad_id id
        then (c, false)
        else if parm_count id + 1 == len
        then (cfg_store (record c { parms = write_parm id p_value c.parms }), true)
        else (c, false)

-- The result is the buffer and the length of the payload in it.
unfoldable pub cfg_get : Cfg → ℕ → List ℕ → List ℕ × ℕ
unfolding parm_index parm_count
cfg_get c len p_buf =
    let id = get_or p_buf 0 0 in
    if is_bad_id id
    then (p_buf, 0)
    else if leb len (parm_count id)
    then (p_buf, 0)
    else let b = set p_buf 1 (get_or c.parms (parm_index id) 0) in
      (
        if parm_count id == 2 then set b 2 (get_or c.parms (parm_index id + 1) 0) else b,
        parm_count id + 1,
      )

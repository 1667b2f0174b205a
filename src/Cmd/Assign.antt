-- ===== src/Cmd/Assign.antt =====
-- The ADDR command of src/cmd.c, which gives the node its address.
use bmsnode_firmware.Prelude.{
  ℕ, ◌≤◌, ◌≡◌, refl, sym, ap, ◌∙◌, true, [], ◌∷◌, arith, ◌==◌, length, get_or, take,
}
use mathlib.Core.Path.{subst}
use bmsnode_firmware.Cfg.Offset
use bmsnode_firmware.Cfg.{
  Cfg, Eeprom, get8, cfg_uid, cfg_store, cfg_load, cfg_set, parm_index, parm_count,
}
use bmsnode_firmware.Cfg.Persist.{cfg_store-cfg_load, cfg_load_lem}
use bmsnode_firmware.Cfg.Parm.{cfg_set_accepts, cfg_set_value}
use bmsnode_firmware.Node.{Node, Env}
use bmsnode_firmware.Cmd.{send_reply, pkt_uid, cmd_addr}
use bmsnode_firmware.Cmd.Code.{node_id, pkt_addr, pkt_payload, cmd_addr_code}
use bmsnode_firmware.Cmd.Reply.{CanSend, Replies, send_reply-Replies}

module _ (crc8 : ℕ → ℕ → ℕ) (ee : Eeprom) (env : Env) where
  -- The address that an ADDR command with the number of this board leaves in the configuration.
  abbrev addressed : Node → Cfg
  addressed n = cfg_store crc8 ee (cfg_set crc8 ee n.cfg 2 (1 ∷ pkt_addr n ∷ [])).0

  addressed_lem :
      (n : Node) (later : Cfg)
      → length n.cfg.parms ≡ 26
      → later.eeprom ≡ (addressed n).eeprom
      → (get8 (addressed n).parms Offset.addr ≡ pkt_addr n)
        × (get8 (cfg_load crc8 ee later).0.parms Offset.addr ≡ pkt_addr n)
  unfolding parm_index parm_count
  addressed_lem n later h e =
      let payload = 1 ∷ pkt_addr n ∷ [] in
      let d = (cfg_set crc8 ee n.cfg 2 payload).0 in
      let ok : (cfg_set crc8 ee n.cfg 2 payload).1 ≡ true =
        (cfg_set_accepts crc8 ee n.cfg 2 payload).0.1 ((omega arith, omega arith), refl) in
      let (value, others, good, back) = cfg_set_value crc8 ee n.cfg d 2 payload h ok refl in
      let set_addr : get_or d.parms 2 0 ≡ pkt_addr n = ap (λ l. get_or l 0 0) value in
      let size : length d.parms ≡ 26 = ap length (sym back) ∙ (cfg_load_lem crc8 ee d).3 in
      let (loads, whole, same) = cfg_store-cfg_load crc8 ee d later size e in
      let loaded = same 2 (omega arith) (omega arith) ∙ set_addr in
      (ap (λ b. get_or b 2 0) (sym whole) ∙ loaded, loaded)

  -- An ADDR command with the number of this board gives the node the address of the packet, also
  -- after a restart from the same EEPROM, and the node answers from it with that number.
  pub cmd_addr_lem :
      (n : Node) (later : Cfg)
      → CanSend n
      → length n.cfg.parms ≡ 26
      → 4 ≤ length (pkt_payload n)
      → cfg_uid n.cfg ≡ pkt_uid n
      → later.eeprom ≡ (cmd_addr crc8 ee env n).0.cfg.eeprom
      → let out = cmd_addr crc8 ee env n in
        (node_id out.0 ≡ pkt_addr n)
        × (get8 (cfg_load crc8 ee later).0.parms Offset.addr ≡ pkt_addr n)
        × Replies crc8 n (pkt_addr n) cmd_addr_code (take 4 (pkt_payload n)) out
  unfolding cmd_addr
  cmd_addr_lem n later c h size u e =
      let ours : (cfg_uid n.cfg == pkt_uid n) ≡ true = ground arith in
      let e' : later.eeprom ≡ (addressed n).eeprom = e ∙ rw ours refl in
      let (here, loaded) = addressed_lem n later h e' in
      let m = record n { cfg = addressed n } in
      let sent =
        send_reply-Replies crc8 ee env m (node_id m) cmd_addr_code (pkt_payload m) 4
          (record { ring = c.ring; tx = c.tx }) (omega arith) size in
      let out = send_reply crc8 ee env m (node_id m) cmd_addr_code (pkt_payload m) 4 in
      let at_node : Replies crc8 n (node_id m) cmd_addr_code (take 4 (pkt_payload n)) out = record {
        can = sent.can;
        bytes = sent.bytes;
        whole = sent.whole;
      } in
      rw ours (
        here,
        loaded,
        subst (λ a. Replies crc8 n a cmd_addr_code (take 4 (pkt_payload n)) out) here at_node,
      )

-- ===== src/Cmd/Discover.antt =====
-- How a board gets its address: what UID of src/cmd.c answers is what ADDR asks for.
use bmsnode_firmware.Prelude.{
  ℕ, suc, ◌+◌, ◌*◌, ◌≤◌, ◌<◌, ◌≡◌, refl, sym, ap, ◌∙◌, Bool, List, [], ◌∷◌, ◌++◌, arith, length,
  get_or, take, drop,
}
use bmsnode_firmware.Cfg.{Cfg, Eeprom, cfg_uid, cfg_board_type, cfg_load, get8}
use bmsnode_firmware.Cfg.Offset
use mathlib.Core.Path.{subst}
use bmsnode_firmware.Node.{Node, Env}
use bmsnode_firmware.Cmd.{uid_bytes, pkt_uid, cmd_uid, cmd_addr, run_command}
use bmsnode_firmware.Cmd.Code.{node_id, pkt_addr, pkt_cmd, pkt_payload, cmd_uid_code, cmd_addr_code}
use bmsnode_firmware.Cmd.Reply.{CanSend, Replies, send_reply-Replies}
use bmsnode_firmware.Cmd.Assign.{cmd_addr_lem}

-- The reply to UID: the number of the board, its type, and the version of the firmware.
abbrev pub uid_payload : Env → Node → List ℕ
uid_payload env n =
    uid_bytes (cfg_uid n.cfg)
    ++ cfg_board_type n.cfg
      ∷ get_or env.version 0 0
      ∷ get_or env.version 1 0
      ∷ get_or env.version 2 0
      ∷ []

-- Four bytes of a payload as a number, the lowest first.
abbrev pub number_of : List ℕ → ℕ
number_of p = get_or p 0 0 + 256 * get_or p 1 0 + 65536 * get_or p 2 0 + 16777216 * get_or p 3 0

pub number_of-take : (p : List ℕ) → number_of (take 4 p) ≡ number_of p
number_of-take [] = refl
number_of-take (a ∷ []) = refl
number_of-take (a ∷ b ∷ []) = refl
number_of-take (a ∷ b ∷ c ∷ []) = refl
number_of-take (a ∷ b ∷ c ∷ d ∷ p) = refl

-- Behind the header of a packet.
pub get_or-drop_four :
    (xs : List ℕ) (i : ℕ) → get_or (drop 4 xs) i 0 ≡ get_or xs (suc (suc (suc (suc i)))) 0
get_or-drop_four [] i = refl
get_or-drop_four (a ∷ []) i = refl
get_or-drop_four (a ∷ b ∷ []) i = refl
get_or-drop_four (a ∷ b ∷ c ∷ []) i = refl
get_or-drop_four (a ∷ b ∷ c ∷ d ∷ xs) i = refl

pub length-drop_four : (xs : List ℕ) → length xs ≡ 16 → 4 ≤ length (drop 4 xs)
length-drop_four [] h = absurd (omega arith)
length-drop_four (a ∷ []) h = absurd (omega arith)
length-drop_four (a ∷ b ∷ []) h = absurd (omega arith)
length-drop_four (a ∷ b ∷ c ∷ []) h = absurd (omega arith)
length-drop_four (a ∷ b ∷ c ∷ d ∷ xs) h = omega arith

number_of-uid_bytes : (uid : ℕ) → uid < 4294967296 → number_of (uid_bytes uid) ≡ uid
number_of-uid_bytes uid h = omega arith

module _ (crc8 : ℕ → ℕ → ℕ) (ee : Eeprom) (env : Env) where
  uid_packet :
      (n : Node)
      → node_id n ≡ 0
      → pkt_addr n ≡ 0
      → pkt_cmd n ≡ cmd_uid_code
      → run_command crc8 ee env n ≡ cmd_uid crc8 ee env n
  unfolding run_command
  uid_packet n fresh any uid = ground arith

  addr_packet :
      (k : Node) → pkt_cmd k ≡ cmd_addr_code → run_command crc8 ee env k ≡ cmd_addr crc8 ee env k
  unfolding run_command
  addr_packet k c = ground arith

  -- A board without an address answers UID at address 0 with its number of 32 bits, its type and
  -- the version. An ADDR packet, at any address, that brings the first four bytes of that reply back
  -- to the board, with the configuration unchanged, gives it the address of that packet, also after
  -- a restart, and is answered from that address with those bytes.
  pub uid-addr :
      (n k : Node) (later : Cfg)
      → node_id n ≡ 0
      → pkt_addr n ≡ 0
      → pkt_cmd n ≡ cmd_uid_code
      → CanSend n
      → cfg_uid n.cfg < 4294967296
      → length n.cfg.parms ≡ 26
      → k.cfg ≡ n.cfg
      → CanSend k
      → pkt_cmd k ≡ cmd_addr_code
      → 4 ≤ length (pkt_payload k)
      → take 4 (pkt_payload k) ≡ take 4 (uid_payload env n)
      → later.eeprom ≡ (run_command crc8 ee env k).0.cfg.eeprom
      → Replies crc8 n 0 cmd_uid_code (uid_payload env n) (run_command crc8 ee env n)
        × (node_id (run_command crc8 ee env k).0 ≡ pkt_addr k)
        × (get8 (cfg_load crc8 ee later).0.parms Offset.addr ≡ pkt_addr k)
        × Replies crc8 k
            (pkt_addr k)
            cmd_addr_code
            (take 4 (uid_payload env n))
            (run_command crc8 ee env k)
  unfolding cmd_uid
  uid-addr n k later fresh any uid c range size same ck addr four bytes restart =
      let r =
        send_reply-Replies crc8 ee env n (node_id n) cmd_uid_code (uid_payload env n) 8 c
          (omega arith) (omega arith) in
      let ours : pkt_uid k ≡ cfg_uid n.cfg =
        sym (number_of-take (pkt_payload k))
        ∙ ap number_of bytes
        ∙ number_of-uid_bytes (cfg_uid n.cfg) range in
      let mine : cfg_uid k.cfg ≡ pkt_uid k = ap cfg_uid same ∙ sym ours in
      let runs = addr_packet k addr in
      let (here, loaded, sent) =
        cmd_addr_lem crc8 ee env k later ck (ap (λ (c : Cfg). length c.parms) same ∙ size) four mine
          (restart ∙ ap (λ (out : Node × Bool). out.0.cfg.eeprom) runs) in
      (
        subst (λ out. Replies crc8 n 0 cmd_uid_code (uid_payload env n) out)
            (sym (uid_packet n fresh any uid))
            (subst (λ a. Replies crc8 n a cmd_uid_code (uid_payload env n) (cmd_uid crc8 ee env n))
              fresh r),
        ap (λ (out : Node × Bool). node_id out.0) runs ∙ here,
        loaded,
        subst (λ out. Replies crc8 k (pkt_addr k) cmd_addr_code (take 4 (uid_payload env n)) out)
            (sym runs)
            (subst (λ b. Replies crc8 k (pkt_addr k) cmd_addr_code b (cmd_addr crc8 ee env k)) bytes
              sent),
      )

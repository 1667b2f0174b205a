-- ===== src/Cmd/Speak.antt =====
-- What a node puts on the wire for a packet, in src/cmd.c: nothing, or one reply that carries its
-- address and, for ADDR, its number.
use bmsnode_firmware.Prelude.{
  ℕ, ◌-◌, ◌≤◌, ◌≡◌, refl, sym, ap, ◌∙◌, ◌↔◌, ◌⊎◌, inl, inr, Bool, true, false, List, [], ◌∷◌, ◌++◌,
  arith, ◌==◌, Bool-cases, length, get_or, take, length-take,
}
use mathlib.Core.Path.{subst}
use bmsnode_firmware.Adc.{
  board_temp, ext_temp, mcu_temp, adc_get_raw, adc_get_cellmv, adc_get_temp_c,
}
use bmsnode_firmware.Ser.{Ser, buf_cnt}
use bmsnode_firmware.Ser.Queue
use bmsnode_firmware.Ser.Queue.{contents}
use bmsnode_firmware.Pkt.{Pkt}
use bmsnode_firmware.Pkt.Frame.{wire}
use bmsnode_firmware.Pkt.Send
use bmsnode_firmware.Cfg.{Eeprom, cfg_uid, cfg_set, cfg_store, cfg_reset, cfg_get}
use bmsnode_firmware.Node.{Node, Env}
use bmsnode_firmware.Shunt.{shunt_get_status, shunt_get_pwm}
use bmsnode_firmware.Cmd.{
  run_command, own_command, cmd_ack, cmd_dfu, cmd_uid, cmd_addr, cmd_status, cmd_adcraw,
  cmd_setparm, cmd_getparm, cmd_testmode, run_testmode, pkt_uid, send_reply, temp_bytes,
}
use bmsnode_firmware.Cmd.Code.{
  node_id, pkt_addr, pkt_cmd, pkt_len, pkt_payload, ticks_of, word_bytes, status_code,
  cmd_addr_code, cmd_uid_code, cmd_status_code, cmd_adcraw_code, cmd_setparm_code, cmd_getparm_code,
}
use bmsnode_firmware.Cmd.Reply.{
  CanSend, Replies, send_reply-Replies, reply_packet, getparm_buffer, sent_len, length-cfg_get,
}
use bmsnode_firmware.Cmd.Discover.{number_of, number_of-take, uid_payload}

module _ (crc8 : ℕ → ℕ → ℕ) where
  -- A reply of the node `n`, which has become `out.0`.
  pub record Speaks (n : Node) (out : Node × Bool) : Type 0 where
    pub addr : ℕ
    pub cmd : ℕ
    pub payload : List ℕ
    pub replies : Replies crc8 n addr cmd payload out
    pub size : length payload ≤ 12
    pub names : (addr ≡ node_id n) ⊎ (addr ≡ node_id out.0)
    pub number :
        (cmd == cmd_addr_code) ≡ true → (4 ≤ length payload) × (number_of payload ≡ cfg_uid n.cfg)

  abbrev pub Answers : Node → Node × Bool → Type 0
  Answers n out = (out.0.ser ≡ n.ser) ⊎ Speaks n out

module _ (crc8 : ℕ → ℕ → ℕ) (ee : Eeprom) (env : Env) where
  -- The commands of `own_command`.
  own_outcome :
      (cmd : ℕ) (n : Node)
      → let out = own_command crc8 ee env cmd n in
        (out ≡ cmd_ack crc8 ee env n)
        ⊎ (out ≡ cmd_uid crc8 ee env n)
        ⊎ (out ≡ cmd_adcraw crc8 ee env n)
        ⊎ (out ≡ cmd_status crc8 ee env n)
        ⊎ (out ≡ cmd_getparm crc8 ee env n)
        ⊎ (out ≡ cmd_setparm crc8 ee env n)
        ⊎ (out ≡ cmd_testmode crc8 ee env n)
        ⊎ (out ≡ cmd_ack crc8 ee env (record n { cfg = cfg_reset crc8 ee n.cfg }))
        ⊎ (out.0.ser ≡ n.ser)
  unfolding own_command cmd_dfu
  own_outcome cmd n = ground arith

  run_outcome :
      (n : Node)
      → let out = run_command crc8 ee env n in
        (out ≡ cmd_addr crc8 ee env n)
        ⊎ (out ≡ cmd_uid crc8 ee env n)
        ⊎ (((pkt_cmd n == cmd_addr_code) ≡ false)
            × (pkt_addr n ≡ node_id n)
            × (out ≡ own_command crc8 ee env (pkt_cmd n) n))
        ⊎ (out.0.ser ≡ n.ser)
  unfolding run_command
  run_outcome n = ground arith

  -- A call of `pkt_send` with the reply flag, in a node `m` with the transmit side of `n`.
  sends :
      (n m : Node) (addr cmd : ℕ) (payload : List ℕ) (len : ℕ)
      → m.ser ≡ n.ser
      → m.tx ≡ n.tx
      → CanSend n
      → len ≤ 12
      → len ≤ length payload
      → (addr ≡ node_id n) ⊎ (addr ≡ node_id m)
      → ((cmd == cmd_addr_code) ≡ true
          → (4 ≤ length (take len payload)) × (number_of (take len payload) ≡ cfg_uid n.cfg))
      → Answers crc8 n (send_reply crc8 ee env m addr cmd payload len)
  sends n m addr cmd payload len s t c few long a u =
      let can : CanSend m = record {
        ring = subst Queue.IsValid (sym s) c.ring;
        tx = subst Send.IsValid (sym t) c.tx;
      } in
      let out = send_reply crc8 ee env m addr cmd payload len in
      let r = send_reply-Replies crc8 ee env m addr cmd payload len can few long in
      let w = wire crc8 (reply_packet addr cmd (take len payload)) in
      inr (record {
        addr = addr;
        cmd = cmd;
        payload = take len payload;
        replies = record {
          can = r.can;
          bytes =
              subst (λ (x : Ser). contents out.0.ser ≡ contents x ++ take (31 - buf_cnt x) w) s
                r.bytes;
          whole = subst (λ (x : Ser). (out.1 ≡ true) ↔ (length w ≤ 31 - buf_cnt x)) s r.whole;
        };
        size = omega (arith, length-take len payload);
        names = a;
        number = u;
      })

  ack-Answers :
      (n m : Node)
      → m.ser ≡ n.ser
      → m.tx ≡ n.tx
      → m.pkt ≡ n.pkt
      → CanSend n
      → (pkt_cmd n == cmd_addr_code) ≡ false
      → pkt_addr n ≡ node_id n
      → Answers crc8 n (cmd_ack crc8 ee env m)
  unfolding cmd_ack
  ack-Answers n m s t p c other mine =
      sends n m (pkt_addr m) (pkt_cmd m) [] 0 s t c (omega arith) (omega arith)
        (inl (ap (λ (x : Pkt). get_or x.rxbuf 1 0) p ∙ mine)) (λ h. absurd (ground arith))

  uid-Answers : (n : Node) → CanSend n → Answers crc8 n (cmd_uid crc8 ee env n)
  unfolding cmd_uid
  uid-Answers n c =
      sends n n (node_id n) cmd_uid_code (uid_payload env n) 8 refl refl c (omega arith)
        (omega arith) (inl refl) (λ h. absurd (ground arith))

  adcraw-Answers : (n : Node) → CanSend n → Answers crc8 n (cmd_adcraw crc8 ee env n)
  unfolding cmd_adcraw
  adcraw-Answers n c =
      let results = adc_get_raw n.board.adc in
      let p =
        word_bytes (get_or results 0 0)
        ++ word_bytes (get_or results 1 0)
        ++ word_bytes (get_or results 2 0)
        ++ word_bytes (get_or results 3 0) in
      sends n n (node_id n) cmd_adcraw_code p 8 refl refl c (omega arith) (omega arith) (inl refl)
        (λ h. absurd (ground arith))

  status-Answers : (n : Node) → CanSend n → Answers crc8 n (cmd_status crc8 ee env n)
  unfolding cmd_status shunt_get_status
  status-Answers n c =
      let b = n.board in
      let (shunt, status) = shunt_get_status (ticks_of n) b.shunt in
      let m = record n { board = record b { shunt = shunt } } in
      let p =
        word_bytes (adc_get_cellmv b.adc n.cfg.parms)
        ++ temp_bytes (adc_get_temp_c env.hw b.adc board_temp)
        ++ (status_code status ∷ shunt_get_pwm shunt ∷ [])
        ++ temp_bytes (adc_get_temp_c env.hw b.adc ext_temp)
        ++ temp_bytes (adc_get_temp_c env.hw b.adc mcu_temp) in
      sends n m (node_id m) cmd_status_code p 10 refl refl c (omega arith) (omega arith) (inr refl)
        (λ h. absurd (ground arith))

  setparm-Answers : (n : Node) → CanSend n → Answers crc8 n (cmd_setparm crc8 ee env n)
  unfolding cmd_setparm
  setparm-Answers n c =
      let m = record n { cfg = (cfg_set crc8 ee n.cfg (pkt_len n) (pkt_payload n)).0 } in
      sends n m (node_id m) cmd_setparm_code (get_or (pkt_payload m) 0 0 ∷ []) 1 refl refl c
        (omega arith) (omega arith) (inr refl) (λ h. absurd (ground arith))

  getparm-Answers : (n : Node) → CanSend n → Answers crc8 n (cmd_getparm crc8 ee env n)
  unfolding cmd_getparm
  getparm-Answers n c =
      let id = get_or (pkt_payload n) 0 0 in
      let (pld, len) = cfg_get n.cfg 12 (getparm_buffer id) in
      let (size, few) = length-cfg_get n id in
      sends n n (node_id n) cmd_getparm_code pld (sent_len len) refl refl c few
        (omega (arith, size, few)) (inl refl) (λ h. absurd (ground arith))

  testmode-Answers :
      (n : Node)
      → CanSend n
      → (pkt_cmd n == cmd_addr_code) ≡ false
      → pkt_addr n ≡ node_id n
      → Answers crc8 n (cmd_testmode crc8 ee env n)
  unfolding cmd_testmode
  testmode-Answers n c other mine = ack-Answers n (run_testmode n) refl refl refl c other mine

  -- ADDR is answered only by the board whose number it has, with that number.
  addr-Answers :
      (n : Node) → CanSend n → 4 ≤ length (pkt_payload n) → Answers crc8 n (cmd_addr crc8 ee env n)
  unfolding cmd_addr
  addr-Answers n c four = elim (Bool-cases (cfg_uid n.cfg == pkt_uid n)) [
    | inl mine ↦
        let mine_number : pkt_uid n ≡ cfg_uid n.cfg = ground arith in
        let m = record n {
          cfg = cfg_store crc8 ee (cfg_set crc8 ee n.cfg 2 (1 ∷ pkt_addr n ∷ [])).0;
        } in
        rw mine (
          sends n m (node_id m) cmd_addr_code (pkt_payload m) 4 refl refl c (omega arith) four
            (inr refl)
            (λ h. (
              omega (arith, length-take 4 (pkt_payload n) four),
              number_of-take (pkt_payload n) ∙ mine_number,
            )))
    | inr other ↦ rw other (inl refl)
  ]

  own-Answers :
      (n : Node)
      → CanSend n
      → (pkt_cmd n == cmd_addr_code) ≡ false
      → pkt_addr n ≡ node_id n
      → Answers crc8 n (own_command crc8 ee env (pkt_cmd n) n)
  own-Answers n c other mine =
      let Said = λ (out : Node × Bool). Answers crc8 n out in
      let reset = record n { cfg = cfg_reset crc8 ee n.cfg } in
      elim (own_outcome (pkt_cmd n) n) [
        | inl e ↦ subst Said (sym e) (ack-Answers n n refl refl refl c other mine)
        | inr (inl e) ↦ subst Said (sym e) (uid-Answers n c)
        | inr (inr (inl e)) ↦ subst Said (sym e) (adcraw-Answers n c)
        | inr (inr (inr (inl e))) ↦ subst Said (sym e) (status-Answers n c)
        | inr (inr (inr (inr (inl e)))) ↦ subst Said (sym e) (getparm-Answers n c)
        | inr (inr (inr (inr (inr (inl e))))) ↦ subst Said (sym e) (setparm-Answers n c)
        | inr (inr (inr (inr (inr (inr (inl e)))))) ↦
            subst Said (sym e) (testmode-Answers n c other mine)
        | inr (inr (inr (inr (inr (inr (inr (inl e))))))) ↦
            subst Said (sym e) (ack-Answers n reset refl refl refl c other mine)
        | inr (inr (inr (inr (inr (inr (inr (inr e))))))) ↦ inl e
      ]

  -- For every packet, a node either leaves the wire alone or queues one reply with at most 12 bytes
  -- of payload, which names an address that the node had or now has, and, if it is a reply to ADDR,
  -- its number.
  pub run_command-Answers :
      (n : Node)
      → CanSend n
      → 4 ≤ length (pkt_payload n)
      → Answers crc8 n (run_command crc8 ee env n)
  run_command-Answers n c four =
      let Said = λ (out : Node × Bool). Answers crc8 n out in
      elim (run_outcome n) [
        | inl e ↦ subst Said (sym e) (addr-Answers n c four)
        | inr (inl e) ↦ subst Said (sym e) (uid-Answers n c)
        | inr (inr (inl (other, mine, e))) ↦ subst Said (sym e) (own-Answers n c other mine)
        | inr (inr (inr e)) ↦ inl e
      ]

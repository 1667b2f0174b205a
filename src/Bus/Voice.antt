-- ===== src/Bus/Voice.antt =====
-- Which of the nodes on one wire answers a packet.
use bmsnode_firmware.Prelude.{
  ℕ, ◌≡◌, refl, sym, ap, ap₂, ◌∙◌, ◌≢◌, ◌⊎◌, inl, inr, true, false, List, [], ◌∷◌, ◌++◌, map,
  append-nil, arith, Bool-cases, length, All,
}
use mathlib.Core.List.{Memᴰ}
use bmsnode_firmware.Ser.{buf_cnt}
use bmsnode_firmware.Ser.Duplex.{drain}
use bmsnode_firmware.Pkt.Frame.{Packet, wire}
use bmsnode_firmware.Cfg.{Cfg, Eeprom}
use bmsnode_firmware.Node.{Node}
use bmsnode_firmware.Cmd.Reply.{reply_packet}
use bmsnode_firmware.Bus.{Station, hearing, spoken, said}
use bmsnode_firmware.Bus.Members.{Apart, Differ, Pairwise, Silent}
use bmsnode_firmware.Bus.Take.{IsIdle, IsWhole, wants}
use bmsnode_firmware.Bus.Hear.{Heard, Reply, hear-Heard}

pub wants_one : (p : Packet) (c d : Cfg) → Apart c d → wants c p ≡ true → wants d p ≡ false
wants_one p c d (number, address) h = ground arith

module _ (crc8 : ℕ → ℕ → ℕ) (ee : Eeprom) where
  -- A reply is for no other node than the one that says it.
  pub other_unwanted :
      (c d : Cfg) (m : Node) (r : Reply crc8 c m)
      → Apart c d
      → Apart m.cfg d
      → wants d (reply_packet r.addr r.cmd r.payload) ≡ false
  other_unwanted c d m r (number, address) (number', address') = elim r.names [
    | inl e ↦ ground (arith, r.number)
    | inr e ↦ ground (arith, r.number)
  ]

-- Nothing has been queued.
pub spoken-nothing : (n : Node) → buf_cnt n.ser ≡ 0 → spoken n ≡ []
unfolding drain
spoken-nothing n e = ap (λ k. (drain k n.ser).1) e

module _ (crc8 : ℕ → ℕ → ℕ) (ee : Eeprom) (p : Packet) (whole : IsWhole p) where
  abbrev pub after : Station → Station
  after = hearing crc8 ee (wire crc8 p)

  pub heard : (s : Station) → IsIdle s.node → Heard crc8 s.node.ser s.node.cfg p (after s).node
  heard s idle = hear-Heard crc8 ee s.env p s.node whole idle

  same-Silent : (s : Station) → IsIdle s.node → (after s).node.ser ≡ s.node.ser → Silent (after s)
  same-Silent s idle e = ap buf_cnt e ∙ idle.silent

  pub foreign-Silent : (s : Station) → IsIdle s.node → wants s.node.cfg p ≡ false → Silent (after s)
  foreign-Silent s idle h = same-Silent s idle ((heard s idle).foreign h).0

  pub answer_loud : (c : Cfg) (m : Node) → Reply crc8 c m → buf_cnt m.ser ≢ 0
  answer_loud c m r e =
      let none_said = ap length (sym (spoken-nothing m e) ∙ r.bytes) in
      absurd (omega (arith, none_said))

  -- The node that answers.
  pub record Voice (ss : List Station) (r : List ℕ) : Type 0 where
    pub speaker : Station
    pub member : Memᴰ speaker ss
    pub asked : wants speaker.node.cfg p ≡ true
    pub reply : Reply crc8 speaker.node.cfg (after speaker).node
    pub bytes : r ≡ spoken (after speaker).node

  abbrev pub Nothing : List Station → Type 0
  Nothing ss = said (map after ss) ≡ []

  others_silent :
      (s : Station) (ss : List Station)
      → All (λ t. IsIdle t.node) ss
      → All (Differ s) ss
      → wants s.node.cfg p ≡ true
      → Nothing ss
  others_silent s [] i d h = refl
  others_silent s (t ∷ ts) (i, is) (d, ds) h =
      let quiet = foreign-Silent t i (wants_one p s.node.cfg t.node.cfg d h) in
      ap₂ ◌++◌ (spoken-nothing (after t).node quiet) (others_silent s ts is ds h)

  pub voices :
      (ss : List Station)
      → All (λ s. IsIdle s.node) ss
      → Pairwise Differ ss
      → Nothing ss ⊎ Voice ss (said (map after ss))
  voices [] i d = inl refl
  voices (s ∷ ss) (i, is) (d, ds) = elim (Bool-cases (wants s.node.cfg p)) [
    | inl mine ↦
        let rest = others_silent s ss is d mine in
        elim (heard s i).answer [
          | inl same ↦ inl (ap₂ ◌++◌ (spoken-nothing (after s).node (same-Silent s i same)) rest)
          | inr r ↦ inr (record {
            speaker = s;
            member = Memᴰ.head refl;
            asked = mine;
            reply = r;
            bytes = ap (λ l. spoken (after s).node ++ l) rest ∙ append-nil (spoken (after s).node);
          })
        ]
    | inr other ↦
        let quiet = spoken-nothing (after s).node (foreign-Silent s i other) in
        elim (voices ss is ds) [
          | inl e ↦ inl (ap₂ ◌++◌ quiet e)
          | inr v ↦ inr (record {
            speaker = v.speaker;
            member = Memᴰ.tail v.member;
            asked = v.asked;
            reply = v.reply;
            bytes = ap (λ l. l ++ said (map after ss)) quiet ∙ v.bytes;
          })
        ]
  ]

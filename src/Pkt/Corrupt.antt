-- ===== src/Pkt/Corrupt.antt =====
-- The receive state machine of src/pkt.c rejects a packet with one wrong byte, with the crc of
-- util/crc16.c.
use bmsnode_firmware.Prelude.{
  ℕ, zero, suc, ◌≤◌, ◌<◌, ◌≡◌, refl, sym, ap, ◌∙◌, ◌≢◌, true, false, List, [], ◌∷◌, ◌++◌, arith,
  ◌==◌, length, get_or, set, length-append, length-set,
}
use mathlib.Core.Path.{subst}
use native.Mathlib.Decide.{dec_lt}
use bmsnode_firmware.Crc.{crc8_ccitt_update, crc_from}
use bmsnode_firmware.Crc.Detect.{Bytes, crc_from-set}
use bmsnode_firmware.Pkt.{Pkt, rx_search, in_search_or_sync, parse_all}
use bmsnode_firmware.Pkt.Frame.{Packet, body, opened, packet_crc}
use bmsnode_firmware.Pkt.Receive.{receive_lem}

set-append_left : (xs ys : List ℕ) (i x : ℕ) → i < length xs → set (xs ++ ys) i x ≡ set xs i x ++ ys
set-append_left [] ys i x h = absurd (omega arith)
set-append_left (y ∷ xs) ys zero x h = refl
set-append_left (y ∷ xs) ys (suc i) x h = ap (λ l. y ∷ l) (set-append_left xs ys i x (omega arith))

set-append_last : (xs : List ℕ) (y x : ℕ) → set (xs ++ y ∷ []) (length xs) x ≡ xs ++ x ∷ []
set-append_last [] y x = refl
set-append_last (z ∷ xs) y x = ap (λ l. z ∷ l) (set-append_last xs y x)

get_or-append_left :
    (xs ys : List ℕ) (i d : ℕ) → i < length xs → get_or (xs ++ ys) i d ≡ get_or xs i d
get_or-append_left [] ys i d h = absurd (omega arith)
get_or-append_left (y ∷ xs) ys zero d h = refl
get_or-append_left (y ∷ xs) ys (suc i) d h = get_or-append_left xs ys i d (omega arith)

get_or-append_last : (xs : List ℕ) (y d : ℕ) → get_or (xs ++ y ∷ []) (length xs) d ≡ y
get_or-append_last [] y d = refl
get_or-append_last (z ∷ xs) y d = get_or-append_last xs y d

-- Header and payload with one byte changed, not the length, are those of another packet.
abbrev Damaged : Packet → ℕ → ℕ → Type 0
Damaged p i x = (q : Packet) × (body q ≡ set (body p) i x) × (length q.payload ≡ length p.payload)

damaged : (p : Packet) (i x : ℕ) → i ≢ 3 → Damaged p i x
damaged p zero x h = (record p { flags = x }, refl, refl)
damaged p (suc zero) x h = (record p { addr = x }, refl, refl)
damaged p (suc (suc zero)) x h = (record p { cmd = x }, refl, refl)
damaged p (suc (suc (suc zero))) x h = absurd (h refl)
damaged p (suc (suc (suc (suc j)))) x h =
    let n = length-set p.payload j x in
    (
      record p { payload = set p.payload j x },
      ap (λ k. p.flags ∷ p.addr ∷ p.cmd ∷ k ∷ set p.payload j x) n,
      n,
    )

abbrev crc8 : ℕ → ℕ → ℕ
crc8 = crc8_ccitt_update

-- The bytes of a packet behind the sync byte.
abbrev pub frame : Packet → List ℕ
frame p = body p ++ packet_crc crc8 p ∷ []

-- The parser waits as before.
pub record Rejects (s t : Pkt) : Type 0 where
  pub state : t.state ≡ rx_search
  pub free : t.rxbuf_inuse ≡ false
  pub ready : t.ready_packet ≡ s.ready_packet

module _ (k : ℕ) (s : Pkt) (e : in_search_or_sync s.state ≡ true) (u : s.rxbuf_inuse ≡ false)
    (v : length s.rxbuf ≡ 16) where
  wrong_check :
      (p : Packet) (c : ℕ)
      → length p.payload ≤ 12
      → c ≢ packet_crc crc8 p
      → Rejects s (parse_all crc8 s (opened k (body p ++ c ∷ [])))
  wrong_check p c le wrong =
      let (st, bytes, ready, inuse) = receive_lem crc8 k p c s le e u v in
      let bad : (c == packet_crc crc8 p) ≡ false = ground arith in
      record { state = st; free = inuse ∙ bad; ready = rw bad at ready }

  wrong_body :
      (p : Packet) (i x : ℕ)
      → length p.payload ≤ 12
      → Bytes (body p)
      → x < 256
      → i ≢ 3
      → i < length (body p)
      → x ≢ get_or (body p) i 0
      → Rejects s (parse_all crc8 s (opened k (set (body p) i x ++ packet_crc crc8 p ∷ [])))
  wrong_body p i x le bytes hx i3 inside wrong =
      let (q, made, n) = damaged p i x i3 in
      let differ : packet_crc crc8 p ≢ packet_crc crc8 q = λ same. wrong (
        crc_from-set (body p) i x 0 (omega arith) hx bytes inside
          (ap (crc_from crc8 0) (sym made) ∙ sym same)) in
      subst (λ b. Rejects s (parse_all crc8 s (opened k (b ++ packet_crc crc8 p ∷ [])))) made
        (wrong_check q (packet_crc crc8 p) (omega arith) differ)

-- A packet with a payload of at most 12, behind any preambles, one of whose bytes has been changed
-- to another byte, be it in the header, the payload or the check byte but not the length, reaches a
-- parser that waits and whose buffer is free: nothing becomes ready, the buffer is free, and the
-- parser waits for the next packet.
pub receive_corrupted :
    (k : ℕ) (p : Packet) (i x : ℕ) (s : Pkt)
    → length p.payload ≤ 12
    → Bytes (body p)
    → x < 256
    → i ≢ 3
    → i < length (frame p)
    → x ≢ get_or (frame p) i 0
    → in_search_or_sync s.state ≡ true
    → s.rxbuf_inuse ≡ false
    → length s.rxbuf ≡ 16
    → Rejects s (parse_all crc8_ccitt_update s (opened k (set (frame p) i x)))
receive_corrupted k p i x s le bytes hx i3 inside wrong e u v =
    let b = body p in
    let c = packet_crc crc8 p in
    let motive = λ (l : List ℕ). Rejects s (parse_all crc8 s (opened k l)) in
    elim (dec_lt i (length b)) [
      | yes low ↦ subst motive (sym (set-append_left b (c ∷ []) i x low)) (
          wrong_body k s e u v p i x le bytes hx i3 low
            (λ same. wrong (same ∙ sym (get_or-append_left b (c ∷ []) i 0 low))))
      | no high ↦
          let last : i ≡ length b = omega (arith, length-append b (c ∷ [])) in
          let at = ap (λ j. get_or (frame p) j 0) last ∙ get_or-append_last b c 0 in
          let written = ap (λ j. set (frame p) j x) last ∙ set-append_last b c x in
          subst motive (sym written) (wrong_check k s e u v p x le (λ same. wrong (same ∙ sym at)))
    ]

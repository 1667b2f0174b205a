-- ===== src/Pkt/Idle.antt =====
-- The receive state machine of src/pkt.c on bytes that begin no packet, and its buffer on any.
use bmsnode_firmware.Prelude.{
  ℕ, ◌≡◌, refl, ap, ◌∙◌, false, List, [], ◌∷◌, arith, ◌==◌, length, All, length-set,
}
use bmsnode_firmware.Pkt.{
  Pkt, PktPtr, null, rxbuf_ptr, RxState, rx_search, rx_sync, rx_header, rx_data, rx_check, preamble,
  dispatch, write_pbuf, pkt_parser, parse_all,
}

length-write_pbuf :
    (p : PktPtr) (buf : List ℕ) (i b : ℕ) → length (write_pbuf p buf i b) ≡ length buf
length-write_pbuf null buf i b = refl
length-write_pbuf rxbuf_ptr buf i b = length-set buf i b

module _ (crc8 : ℕ → ℕ → ℕ) where
  length-dispatch :
      (st : RxState) (s : Pkt) (b : ℕ) → length (dispatch crc8 st s b).rxbuf ≡ length s.rxbuf
  unfolding dispatch
  length-dispatch rx_search s b = ground arith
  length-dispatch rx_sync s b = ground arith
  length-dispatch rx_header s b = ground (arith, length-write_pbuf s.pbuf s.rxbuf s.idx b)
  length-dispatch rx_data s b = ground (arith, length-write_pbuf s.pbuf s.rxbuf s.idx b)
  length-dispatch rx_check s b = ground arith

  pub length-parse_all :
      (s : Pkt) (bs : List ℕ) → length (parse_all crc8 s bs).rxbuf ≡ length s.rxbuf
  unfolding parse_all pkt_parser
  length-parse_all s [] = refl
  length-parse_all s (b ∷ bs) =
      length-parse_all (pkt_parser crc8 s b) bs ∙ length-dispatch s.state s b

  search_step :
      (st : RxState) (s : Pkt) (b : ℕ)
      → st ≡ rx_search
      → (b == preamble) ≡ false
      → dispatch crc8 st s b ≡ s
  unfolding dispatch
  search_step st s b e plain = ground arith

  -- A parser that searches does not see what has no preamble.
  pub unseen :
      (s : Pkt) (bs : List ℕ)
      → s.state ≡ rx_search
      → All (λ b. (b == preamble) ≡ false) bs
      → parse_all crc8 s bs ≡ s
  unfolding parse_all pkt_parser
  unseen s [] e all = refl
  unseen s (b ∷ bs) e (plain, all) =
      ap (λ t. parse_all crc8 t bs) (search_step s.state s b e plain) ∙ unseen s bs e all

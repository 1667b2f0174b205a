-- ===== src/Pkt/Ends.antt =====
-- The receive state machine of src/pkt.c leaves a packet after a bounded number of bytes, whatever
-- they are.
use bmsnode_firmware.Prelude.{
  ℕ, suc, ◌+◌, ◌-◌, ◌≤◌, ◌<◌, ◌≡◌, refl, inl, inr, true, false, List, [], ◌∷◌, arith, Bool-cases,
  length, take,
}
use bmsnode_firmware.Pkt.{
  Pkt, RxState, rx_search, rx_sync, rx_header, rx_data, rx_check, in_search_or_sync, dispatch,
  pkt_parser, parse_all,
}
use bmsnode_firmware.Pkt.Bounds.{IsValid, pkt_parser-IsValid}

-- The most bytes that a packet still takes: 4 of the header, 12 of the payload and the crc.
abbrev pub left : RxState → Pkt → ℕ
left rx_search s = 0
left rx_sync s = 0
left rx_header s = 17 - s.idx
left rx_data s = s.len + 1
left rx_check s = 1

abbrev pub bytes_left : Pkt → ℕ
bytes_left s = left s.state s

module _ (crc8 : ℕ → ℕ → ℕ) where
  dispatch-left :
      (st : RxState) (s : Pkt) (b : ℕ)
      → s.state ≡ st
      → IsValid crc8 s
      → in_search_or_sync st ≡ false
      → bytes_left (dispatch crc8 st s b) < left st s
  unfolding dispatch
  dispatch-left rx_search s b e v h = absurd (ground arith)
  dispatch-left rx_sync s b e v h = absurd (ground arith)
  dispatch-left rx_header s b e v h = ground (arith, v.header e)
  dispatch-left rx_data s b e v h = ground (arith, v.payload e)
  dispatch-left rx_check s b e v h = ground arith

  one_less :
      (s : Pkt) (b : ℕ)
      → IsValid crc8 s
      → in_search_or_sync s.state ≡ false
      → bytes_left (pkt_parser crc8 s b) < bytes_left s
  unfolding pkt_parser
  one_less s b v h = dispatch-left s.state s b refl v h

  -- A parser that is in the middle of a packet waits for the next one after as many of any bytes
  -- as the packet can still take at most, or earlier.
  ends_within :
      (bs : List ℕ) (s : Pkt)
      → IsValid crc8 s
      → bytes_left s ≤ length bs
      → (k : ℕ) × (k ≤ bytes_left s)
        × (in_search_or_sync (parse_all crc8 s (take k bs)).state ≡ true)
  unfolding parse_all
  ends_within [] s v h = (0, omega arith, ground arith)
  ends_within (b ∷ bs) s v h = elim (Bool-cases (in_search_or_sync s.state)) [
    | inl waits ↦ (0, omega arith, waits)
    | inr busy ↦
        let less = one_less s b v busy in
        let (k, few, waits) =
          ends_within bs (pkt_parser crc8 s b) (pkt_parser-IsValid crc8 s b v) (omega arith) in
        (suc k, omega arith, waits)
  ]

  at_most_17 : (s : Pkt) → IsValid crc8 s → bytes_left s ≤ 17
  at_most_17 s v = ground (arith, v.payload)

  -- Among any 17 bytes there is a point at which a well formed parser waits for a packet: none can
  -- hold it longer.
  pub packet_ends :
      (bs : List ℕ) (s : Pkt)
      → IsValid crc8 s
      → 17 ≤ length bs
      → (k : ℕ) × (k ≤ 17) × (in_search_or_sync (parse_all crc8 s (take k bs)).state ≡ true)
  packet_ends bs s v h =
      let most = at_most_17 s v in
      let (k, few, waits) = ends_within bs s v (omega arith) in (k, omega arith, waits)

-- ===== src/Tmr/Expiry.antt =====
-- When a timeout of src/tmr.c expires, with the tick wrapping at 16 bits.
use bmsnode_firmware.Prelude.{ℕ, ◌+◌, ◌≤◌, ◌<◌, ◌≡◌, ◌&&◌, arith, ltb, leb, u16}
use bmsnode_firmware.Tmr.{tmr_set, tmr_expired}

-- A timer set for at most 32767 ms has expired exactly from `d` ms on, up to 32768 ms later, as
-- long as it is read within one turn of the 16 bit tick, wherever the tick stood.
pub tmr_expired-set :
    (now d k : ℕ)
    → d ≤ 32767
    → k < 65536
    → tmr_expired (u16 (now + k)) (tmr_set now d) ≡ (leb d k && ltb k (d + 32768))
unfolding tmr_expired tmr_set
tmr_expired-set now d k hd hk = ground arith

-- ===== src/Tmr.antt =====
-- The timers of src/tmr.c and src/tmr.h: a 16 bit millisecond tick that wraps, timeouts read
-- against it, and the list of scheduled timers. A loop over the list takes fuel as its first
-- argument; the laws ask for more fuel than there are timers in the list.
pub mod Expiry
pub mod Schedule
pub mod Fuel
use bmsnode_firmware.Prelude.{ℕ, zero, suc, ◌+◌, ◌-◌, Bool, ltb, ◌==◌, if◌then◌else◌, u16}
use bmsnode_firmware.LinkedList.{Ptr, null, Links, update, list_add, list_remove, list_iter}

-- The address of the list head.
abbrev pub tmrlist : Ptr
tmrlist = 1

-- `systick`, and the fields of `struct tmr` at every address.
pub record Tmr : Type 0 where
  pub systick : ℕ
  pub p_next : Links
  pub timeout : Ptr → ℕ
  pub periodic : Ptr → ℕ
  pub id : Ptr → ℕ

unfoldable pub tick_isr : Tmr → Tmr
tick_isr t = record t { systick = u16 (t.systick + 1) }

unfoldable pub tmr_init : Tmr → Tmr
tmr_init t = record t { p_next = update t.p_next tmrlist null }

-- The next two take the tick that `tmr_get_ticks` reads.
unfoldable pub tmr_set : ℕ → ℕ → ℕ
tmr_set ticks millisec = u16 (ticks + millisec)

unfoldable pub tmr_expired : ℕ → ℕ → Bool
tmr_expired ticks tmrset = ltb (u16 (ticks + 65536 - tmrset)) 32768

unfoldable pub tmr_unschedule : ℕ → Tmr → Ptr → Tmr
tmr_unschedule fuel t p_tmr = record t { p_next = list_remove fuel t.p_next tmrlist p_tmr }

unfoldable pub tmr_schedule : ℕ → Tmr → Ptr → ℕ → ℕ → Bool → Tmr
unfolding tmr_unschedule
tmr_schedule fuel t p_tmr id duration periodic =
    let u = tmr_unschedule fuel t p_tmr in
    record u {
      p_next = list_add u.p_next tmrlist p_tmr;
      timeout = update u.timeout p_tmr (tmr_set u.systick duration);
      periodic = update u.periodic p_tmr (if periodic then duration else 0);
      id = update u.id p_tmr id;
    }

-- What `tmr_process` does with the expired timer that it has found.
abbrev pub on_expired : ℕ → Tmr → Ptr → Tmr
on_expired fuel t p_tmr =
    if t.periodic p_tmr == 0
    then record t { p_next = list_remove fuel t.p_next tmrlist p_tmr }
    else record t { timeout = update t.timeout p_tmr (u16 (t.timeout p_tmr + t.periodic p_tmr)) }

-- The `while` loop of `tmr_process`; `rounds` is the fuel of the walk.
pub process_loop : ℕ → ℕ → Tmr → Ptr → Tmr × Ptr
process_loop zero fuel t p_tmr = (t, null)
process_loop (suc rounds) fuel t p_tmr =
    let more = process_loop rounds fuel t (list_iter t.p_next p_tmr) in
    if p_tmr == null
    then (t, null)
    else if tmr_expired t.systick (t.timeout p_tmr)
    then (on_expired fuel t p_tmr, p_tmr)
    else more

unfoldable pub tmr_process : ℕ → Tmr → Tmr × Ptr
unfolding process_loop
tmr_process fuel t = process_loop fuel fuel t (list_iter t.p_next tmrlist)

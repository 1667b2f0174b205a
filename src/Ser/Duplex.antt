-- ===== src/Ser/Duplex.antt =====
-- The half duplex switching of src/ser.c: which interrupts are on while bytes wait, which side of
-- the wire is on while they are sent, and that the interrupts empty the ring.
use bmsnode_firmware.Prelude.{
  ℕ, zero, suc, ◌-◌, ◌≡◌, refl, sym, ◌≢◌, Bool, true, false, List, [], ◌++◌, arith,
}
use bmsnode_firmware.Ser.{Ser, buf_cnt, ser_is_active, ser_write, ser_flush, dre_isr, txc_isr}
use bmsnode_firmware.Ser.Queue.{IsValid, contents, sent, dre_isr_lem}

-- Bytes that wait have both transmit interrupts on, and while the transmit complete interrupt is
-- on the wire is turned to transmit.
pub record IsInStep (s : Ser) : Type 0 where
  pub served : s.headp ≢ s.tailp → (s.dreie ≡ true) × (s.txcie ≡ true)
  pub one_way : s.txcie ≡ true → (s.txen ≡ true) × (s.rxen ≡ false)

pub ser_write-IsInStep : (s : Ser) (buf : List ℕ) (len : ℕ) → IsInStep (ser_write s buf len).0
unfolding ser_write
ser_write-IsInStep s buf len = ground arith

pub ser_flush-IsInStep : (s : Ser) → IsInStep (ser_flush s)
unfolding ser_flush
ser_flush-IsInStep s = ground arith

pub dre_isr-IsInStep : (dreif : Bool) (s : Ser) → IsInStep s → IsInStep (dre_isr dreif s).0
unfolding dre_isr
dre_isr-IsInStep dreif s h = ground arith

pub txc_isr-IsInStep : (s : Ser) → IsInStep s → IsInStep (txc_isr s)
unfolding txc_isr
txc_isr-IsInStep s h = ground arith

-- What the main loop and the hardware do to the transmit side, in any order.
pub data Step : Ser → Ser → Type 0 where
  write : (s : Ser) (buf : List ℕ) (len : ℕ) → Step s (ser_write s buf len).0
  flush : (s : Ser) → Step s (ser_flush s)
  data_register : (s : Ser) (dreif : Bool) → Step s (dre_isr dreif s).0
  transmit_complete : (s : Ser) → Step s (txc_isr s)

pub data Reach (s : Ser) : Ser → Type 0 where
  here : Reach s s
  next : {t u : Ser} → Reach s t → Step t u → Reach s u

Step-IsInStep : {s t : Ser} → Step s t → IsInStep s → IsInStep t
Step-IsInStep (write s buf len) h = ser_write-IsInStep s buf len
Step-IsInStep (flush s) h = ser_flush-IsInStep s
Step-IsInStep (data_register s dreif) h = dre_isr-IsInStep dreif s h
Step-IsInStep (transmit_complete s) h = txc_isr-IsInStep s h

-- In every order of writes, flushes and interrupts, from a state in step, the bytes that wait have
-- both transmit interrupts on, and the receiver is off while a transmission is not complete.
pub Reach-IsInStep : {s t : Ser} → IsInStep s → Reach s t → IsInStep t
Reach-IsInStep h here = h
Reach-IsInStep h (next r st) = Step-IsInStep st (Reach-IsInStep h r)

-- `n` data register interrupts with the register free, and the bytes that they send.
unfoldable pub drain : ℕ → Ser → Ser × List ℕ
drain zero s = (s, [])
drain (suc n) s =
    let (s', out) = dre_isr true s in let (s'', rest) = drain n s' in (s'', sent out ++ rest)

dre_isr-cons : (s : Ser) → buf_cnt s ≢ 0 → IsValid s → (buf_cnt (dre_isr true s).0 ≡ buf_cnt s - 1)
unfolding dre_isr
dre_isr-cons s h v = ground arith

drain_lem :
    (n : ℕ) (s : Ser)
    → IsValid s
    → buf_cnt s ≡ n
    → IsValid (drain n s).0
      × ((drain n s).1 ≡ contents s)
      × ((drain n s).0.headp ≡ (drain n s).0.tailp)
unfolding drain
drain_lem zero s v e = (v, rw e, omega arith)
drain_lem (suc n) s v e =
    let r = (dre_isr true s).0 in
    let ih =
      drain_lem n r (dre_isr_lem true s v).0 (omega (arith, dre_isr-cons s (omega arith) v)) in
    (ih.0, rw ih.1 (sym (dre_isr_lem true s v).1), ih.2)

-- After as many data register interrupts as bytes wait, all of them are sent in order; one more
-- and the transmit complete interrupt turn the wire back to receive and leave the module idle.
pub drain_returns :
    (s : Ser)
    → IsValid s
    → ((drain (buf_cnt s) s).1 ≡ contents s)
      × (let t = txc_isr (dre_isr true (drain (buf_cnt s) s).0).0 in
          (ser_is_active false t ≡ false) × (t.rxen ≡ true) × (t.txen ≡ false))
unfolding txc_isr ser_is_active dre_isr
drain_returns s v = let d = drain_lem (buf_cnt s) s v refl in (d.1, ground arith)

drain-IsInStep : (n : ℕ) (s : Ser) → IsInStep s → IsInStep (drain n s).0
unfolding drain
drain-IsInStep zero s v = v
drain-IsInStep (suc n) s v = drain-IsInStep n (dre_isr true s).0 (dre_isr-IsInStep true s v)

-- The ring when all of it is sent, and the receiver on.
pub drained :
    (s : Ser)
    → IsValid s
    → IsInStep s
    → let t = txc_isr (dre_isr true (drain (buf_cnt s) s).0).0 in
      IsValid t × IsInStep t × (buf_cnt t ≡ 0) × (t.rxen ≡ true)
unfolding txc_isr dre_isr
drained s v w =
    let d = drain_lem (buf_cnt s) s v refl in
    let r = (drain (buf_cnt s) s).0 in
    let step =
      txc_isr-IsInStep (dre_isr true r).0
        (dre_isr-IsInStep true r (drain-IsInStep (buf_cnt s) s w)) in
    (ground (arith, d.0), step, ground arith, ground arith)

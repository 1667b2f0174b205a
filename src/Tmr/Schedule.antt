-- ===== src/Tmr/Schedule.antt =====
-- The list of scheduled timers of src/tmr.c.
use bmsnode_firmware.Prelude.{
  ℕ, zero, suc, ◌+◌, ◌<◌, ◌≡◌, refl, ap, ◌∙◌, ◌≢◌, inl, inr, Bool, true, false, List, [], ◌∷◌,
  arith, ◌==◌, if◌then◌else◌, Bool-cases, u16, length,
}
use bmsnode_firmware.LinkedList.{Ptr, null, Links, update, list_iter}
use bmsnode_firmware.LinkedList.Chain.{
  has, Chain, IsList, erase, erase-not_has, list_add-IsList, list_remove-IsList,
}
use bmsnode_firmware.Tmr.{
  Tmr, tmrlist, tmr_set, tmr_expired, tmr_unschedule, tmr_schedule, on_expired, process_loop,
  tmr_process,
}

-- The scheduled timers are `xs`, the one scheduled last in front.
abbrev pub IsScheduled : Tmr → List Ptr → Type 0
IsScheduled t xs = IsList t.p_next tmrlist xs

-- `tmr_schedule` puts a timer at the front of the list, once, whether it was scheduled before or
-- not, and gives it its timeout, its period and its id; the other timers keep theirs.
pub tmr_schedule-IsScheduled :
    (fuel : ℕ) (t : Tmr) (p id duration : ℕ) (periodic : Bool) (xs : List Ptr)
    → IsScheduled t xs
    → p ≢ null
    → p ≢ tmrlist
    → length xs < fuel
    → let u = tmr_schedule fuel t p id duration periodic in
      IsScheduled u (p ∷ erase p xs)
      × (u.timeout p ≡ tmr_set t.systick duration)
      × (u.periodic p ≡ (if periodic then duration else 0))
      × (u.id p ≡ id)
      × ((q : Ptr)
          → q ≢ p
          → (u.timeout q ≡ t.timeout q) × (u.periodic q ≡ t.periodic q) × (u.id q ≡ t.id q))
unfolding tmr_schedule
tmr_schedule-IsScheduled fuel t p id duration periodic xs v nn nh f =
    let removed = list_remove-IsList fuel tmrlist p xs v nh f in
    (
      list_add-IsList tmrlist p (erase p xs) removed.0 nn
          (ground (arith, erase-not_has xs p v.distinct.1)),
      ground arith,
      ground arith,
      ground arith,
      λ q ne. ground arith,
    )

-- `tmr_unschedule` takes the timer out of the list.
pub tmr_unschedule-IsScheduled :
    (fuel : ℕ) (t : Tmr) (p : Ptr) (xs : List Ptr)
    → IsScheduled t xs
    → p ≢ tmrlist
    → length xs < fuel
    → IsScheduled (tmr_unschedule fuel t p) (erase p xs)
unfolding tmr_unschedule
tmr_unschedule-IsScheduled fuel t p xs v nh f = (list_remove-IsList fuel tmrlist p xs v nh f).0

-- The first timer of the list whose timeout has expired, or null.
abbrev pub first_expired : Tmr → List Ptr → Ptr
first_expired t [] = null
first_expired t (x ∷ xs) = if tmr_expired t.systick (t.timeout x) then x else first_expired t xs

-- What finding `p` expired makes of the timers `xs`.
abbrev pub Processed : Tmr → List Ptr → Ptr → Tmr → Type 0
Processed t xs p u =
    if p == null
    then u ≡ t
    else if t.periodic p == 0
    then IsScheduled u (erase p xs) × (u.timeout ≡ t.timeout)
    else IsScheduled u xs × (u.timeout ≡ update t.timeout p (u16 (t.timeout p + t.periodic p)))

abbrev pub finish : ℕ → Tmr → Ptr → Tmr
finish fuel t p = if p == null then t else on_expired fuel t p

pub list_iter_of_ne : (h : Links) (y : Ptr) → (y == null) ≡ false → list_iter h y ≡ h y
unfolding list_iter
list_iter_of_ne h y go = rw go

pub process_loop_lem :
    (ys : List Ptr) (rounds fuel : ℕ) (t : Tmr) (prev : Ptr)
    → Chain t.p_next prev ys
    → length ys < rounds
    → process_loop rounds fuel t (t.p_next prev)
      ≡ (finish fuel t (first_expired t ys), first_expired t ys)
unfolding process_loop
process_loop_lem ys zero fuel t prev c f = absurd (omega arith)
process_loop_lem [] (suc rounds) fuel t prev c f = ground (arith, c)
process_loop_lem (y ∷ ys) (suc rounds) fuel t prev c f =
    let (e, ne, rest) = c in
    let go : (y == null) ≡ false = ground arith in
    elim (Bool-cases (tmr_expired t.systick (t.timeout y))) [
      | inl late ↦ rw (e, go, late, go)
      | inr early ↦
          rw (e, go, early)
            (ap (λ p. process_loop rounds fuel t p) (list_iter_of_ne t.p_next y go)
              ∙ process_loop_lem ys rounds fuel t y rest (omega arith))
    ]

has-first_expired :
    (t : Tmr) (xs : List Ptr)
    → (first_expired t xs == null) ≡ false
    → has (first_expired t xs) xs ≡ true
has-first_expired t [] e = cc
has-first_expired t (x ∷ xs) e = ground (arith, has-first_expired t xs)

-- `tmr_process` returns the first timer of the list whose timeout has expired, or null if there is
-- none. With none it changes nothing; an expired timer with no period leaves the list, and one
-- with a period stays and its timeout moves on by exactly the period.
pub tmr_process_lem :
    (fuel : ℕ) (t : Tmr) (xs : List Ptr)
    → IsScheduled t xs
    → length xs < fuel
    → let (u, p) = tmr_process fuel t in (p ≡ first_expired t xs) × Processed t xs p u
unfolding tmr_process
tmr_process_lem fuel t xs v f =
    let walk = process_loop_lem xs fuel fuel t tmrlist v.chain f in
    rw (list_iter_of_ne t.p_next tmrlist refl, walk) (refl, done (first_expired t xs) refl)
  where
    done : (p : Ptr) → first_expired t xs ≡ p → Processed t xs p (finish fuel t p)
    done p e = elim (Bool-cases (p == null)) [
      | inl none_late ↦ rw none_late refl
      | inr late ↦ elim (Bool-cases (t.periodic p == 0)) [
        | inl once ↦
            let at : has p xs ≡ true = ground (arith, has-first_expired t xs) in
            let ne : p ≢ tmrlist = ground (arith, v.distinct.0) in
            rw (late, once) ((list_remove-IsList fuel tmrlist p xs v ne f).0, refl)
        | inr again ↦ rw (late, again) (v, refl)
      ]
    ]

process_loop-id : (rounds fuel : ℕ) (t : Tmr) (p : Ptr) → (process_loop rounds fuel t p).0.id ≡ t.id
unfolding process_loop
process_loop-id zero fuel t p = refl
process_loop-id (suc rounds) fuel t p =
    ground (arith, process_loop-id rounds fuel t (list_iter t.p_next p))

pub tmr_process-id : (fuel : ℕ) (t : Tmr) → (tmr_process fuel t).0.id ≡ t.id
unfolding tmr_process
tmr_process-id fuel t = process_loop-id fuel fuel t (list_iter t.p_next tmrlist)

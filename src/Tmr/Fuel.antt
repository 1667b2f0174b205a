-- ===== src/Tmr/Fuel.antt =====
-- The fuel of the loops of src/tmr.c: above the length of the list of timers, more changes nothing.
use bmsnode_firmware.Prelude.{
  ℕ, ◌<◌, ◌≡◌, refl, sym, ap, ◌∙◌, inl, inr, Bool, List, ◌==◌, if◌then◌else◌, Bool-cases, length,
}
use bmsnode_firmware.LinkedList.{Ptr, null, update, list_add, list_remove}
use bmsnode_firmware.LinkedList.Chain.{list_remove_fuel}
use bmsnode_firmware.Tmr.{Tmr, tmrlist, tmr_set, tmr_unschedule, tmr_schedule, tmr_process}
use bmsnode_firmware.Tmr.Schedule.{
  IsScheduled, first_expired, finish, process_loop_lem, list_iter_of_ne,
}

module _ (f g : ℕ) (t : Tmr) (xs : List Ptr) (v : IsScheduled t xs) (p : length xs < f)
    (q : length xs < g) where
  removed_fuel :
      (node : Ptr) → list_remove f t.p_next tmrlist node ≡ list_remove g t.p_next tmrlist node
  removed_fuel node = list_remove_fuel xs f g t.p_next tmrlist node v.chain p q

  finish_fuel : (node : Ptr) → finish f t node ≡ finish g t node
  finish_fuel node = elim (Bool-cases (node == null)) [
    | inl none_late ↦ rw none_late refl
    | inr late ↦ elim (Bool-cases (t.periodic node == 0)) [
      | inl once ↦ rw (late, once) (ap (λ l. record t { p_next = l }) (removed_fuel node))
      | inr again ↦ rw (late, again) refl
    ]
  ]

  tmr_process_walk :
      (fuel : ℕ)
      → length xs < fuel
      → tmr_process fuel t ≡ (finish fuel t (first_expired t xs), first_expired t xs)
  unfolding tmr_process
  tmr_process_walk fuel h =
      rw (list_iter_of_ne t.p_next tmrlist refl) (process_loop_lem xs fuel fuel t tmrlist v.chain h)

  -- For the timers of a list, every fuel above its length gives the same outcome of processing,
  -- scheduling and unscheduling.
  pub more_fuel :
      (node id duration : ℕ) (periodic : Bool)
      → (tmr_process f t ≡ tmr_process g t)
        × (tmr_schedule f t node id duration periodic ≡ tmr_schedule g t node id duration periodic)
        × (tmr_unschedule f t node ≡ tmr_unschedule g t node)
  unfolding tmr_schedule tmr_unschedule
  more_fuel node id duration periodic =
      let removed = removed_fuel node in
      (
        tmr_process_walk f p
            ∙ ap (λ (u : Tmr). (u, first_expired t xs)) (finish_fuel (first_expired t xs))
            ∙ sym (tmr_process_walk g q),
        ap
            (λ l. record t {
              p_next = list_add l tmrlist node;
              timeout = update t.timeout node (tmr_set t.systick duration);
              periodic = update t.periodic node (if periodic then duration else 0);
              id = update t.id node id;
            })
            removed,
        ap (λ l. record t { p_next = l }) removed,
      )

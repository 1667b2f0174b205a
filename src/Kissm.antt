-- ===== src/Kissm.antt =====
-- The state machine runner of src/kissm.c and src/kissm.h, over the states, the application events
-- and the store of a client, and the handler of each state.
use bmsnode_firmware.Prelude.{Bool, false, Option, none, some, if◌then◌else◌}

-- `struct kissm_event`: the type of the event, with its data for an event of the application.
pub data Event (E : Type 0) : Type 0 where
  evt_none : Event E
  evt_any : Event E
  evt_exit : Event E
  evt_entry : Event E
  evt_app : E → Event E

-- A `struct kissm_state *`: the runner's own initial state, or one of the application.
pub data State (P : Type 0) : Type 0 where
  kissm_initial : State P
  app_state : P → State P

-- The statics of kissm.c.
pub record Kissm (P : Type 0) : Type 0 where
  pub p_ps : State P
  pub app_init_state : P

unfoldable pub kissm_init : {P : Type 0} → P → Kissm P
kissm_init init_state = record { p_ps = kissm_initial; app_init_state = init_state }

module _ {P E S : Type 0} (handler : P → Event E → S → S × Option P) (same : P → P → Bool) where
  abbrev pub same_state : State P → P → Bool
  same_state kissm_initial q = false
  same_state (app_state p) q = same p q

  -- A call through the pointer of a state.
  abbrev pub call_handler : Kissm P → State P → Event E → S → S × Option P
  call_handler k kissm_initial e s = (s, some k.app_init_state)
  call_handler k (app_state p) e s = handler p e s

  -- What follows the call of the present state's handler.
  abbrev pub transition : Kissm P → S × Option P → Kissm P × S
  transition k (s, none) = (k, s)
  transition k (s, some p_ns) =
      if same_state k.p_ps p_ns
      then (k, s)
      else let (s', ignored) = call_handler k k.p_ps evt_exit s in
        let (s'', ignored') = handler p_ns evt_entry s' in (record k { p_ps = app_state p_ns }, s'')

  unfoldable pub kissm_run : Event E → Kissm P × S → Kissm P × S
  kissm_run e (k, s) = transition k (call_handler k k.p_ps e s)

-- ===== src/Main/Machine.antt =====
-- A run of the state machine of src/main.c: what it keeps, the ways that it takes, and what a node
-- that goes to sleep has switched off.
use bmsnode_firmware.Prelude.{
  ◌≡◌, refl, sym, ap, ◌∙◌, ◌⊎◌, inl, inr, Bool, true, false, Option, none, some, arith,
}
use bmsnode_firmware.Kissm.{
  Event, evt_exit, evt_entry, State, kissm_initial, app_state, Kissm, kissm_run, transition,
}
use bmsnode_firmware.Node.{Node, Env}
use bmsnode_firmware.Led.{led_off}
use bmsnode_firmware.Adc.{adc_powerdown}
use bmsnode_firmware.Main.States.{
  NodeState, powerup, idle, dfu, shunt, testmode, sleep, AppEvent, sleep_handler, handler, same,
}
use bmsnode_firmware.Main.Graph.{is_edge, wdt_after, Handles, handler-Handles}

-- The events that the main loop makes.
abbrev pub is_outer : Event AppEvent → Bool
is_outer evt_entry = false
is_outer evt_exit = false
is_outer _ = true

abbrev pub is_awake : State NodeState → Bool
is_awake (app_state sleep) = false
is_awake _ = true

-- The ways of the runner: into the application, and the transitions there.
abbrev pub is_move : State NodeState → State NodeState → Bool
is_move kissm_initial (app_state q) = same powerup q
is_move (app_state p) (app_state q) = is_edge p q
is_move _ _ = false

-- A node that sleeps has its converters, its LEDs, its outputs and the watchdog off.
pub record IsQuiet (n : Node) : Type 0 where
  pub converter0 : n.board.adc.adc0_enabled ≡ false
  pub converter1 : n.board.adc.adc1_enabled ≡ false
  pub reference : n.board.adc.refon ≡ false
  pub green : n.board.leds.green.pin ≡ false
  pub blue : n.board.leds.blue.pin ≡ false
  pub extio : n.board.extio ≡ false
  pub loadon : n.board.loadon ≡ false
  pub watchdog : n.mcu.wdt_enabled ≡ false

sleep_entry-IsQuiet : (n : Node) → IsQuiet (sleep_handler evt_entry n).0
unfolding sleep_handler adc_powerdown led_off
sleep_entry-IsQuiet n = ground arith

pub sleep_handler_wakes :
    (e : Event AppEvent) (n : Node) → is_outer e ≡ true → sleep_handler e n ≡ (n, some idle)
unfolding sleep_handler
sleep_handler_wakes e n h = ground arith

-- A run of the state machine.
pub record Ran (k : Kissm NodeState) (n : Node) (out : Kissm NodeState × Node) : Type 0 where
  pub packet : out.1.pkt ≡ n.pkt
  pub initial : out.0.app_init_state ≡ k.app_init_state
  pub moved : (out.0.p_ps ≡ k.p_ps) ⊎ (is_move k.p_ps out.0.p_ps ≡ true)
  pub watched : n.mcu.wdt_enabled ≡ is_awake k.p_ps → out.1.mcu.wdt_enabled ≡ is_awake out.0.p_ps
  pub quiet : out.0.p_ps ≡ app_state sleep → IsQuiet out.1
  pub kept : (out.1.tx ≡ n.tx) × (out.1.ser ≡ n.ser) × (out.1.cfg ≡ n.cfg)

entered-IsQuiet :
    (env : Env) (q : NodeState) (n : Node)
    → app_state q ≡ app_state sleep
    → IsQuiet (handler env q evt_entry n).0
entered-IsQuiet env sleep n h = sleep_entry-IsQuiet n
entered-IsQuiet env powerup n h = absurd (ground arith)
entered-IsQuiet env idle n h = absurd (ground arith)
entered-IsQuiet env dfu n h = absurd (ground arith)
entered-IsQuiet env shunt n h = absurd (ground arith)
entered-IsQuiet env testmode n h = absurd (ground arith)

outer_wdt :
    (p : NodeState) (e : Event AppEvent) (w : Bool) → is_outer e ≡ true → wdt_after p e w ≡ w
outer_wdt p e w o = ground arith

crossing_wdt :
    (p q : NodeState) (w : Bool)
    → is_edge p q ≡ true
    → w ≡ is_awake (app_state p)
    → wdt_after q evt_entry (wdt_after p evt_exit w) ≡ is_awake (app_state q)
crossing_wdt p q w h a = ground arith

-- The runner in a state, with `powerup` as the initial state of the application.
abbrev pub in_state : State NodeState → Kissm NodeState
in_state p = record { p_ps = p; app_init_state = powerup }

pub to_powerup : (k : Kissm NodeState) → k.app_init_state ≡ powerup → in_state k.p_ps ≡ k
to_powerup k i = ap (λ a. record { p_ps = k.p_ps; app_init_state = a }) (sym i)

abbrev Same : Node → Node → Type 0
Same m n = (m.tx ≡ n.tx) × (m.ser ≡ n.ser) × (m.cfg ≡ n.cfg)

thrice-Same : (n m x y : Node) → Same m n → Same x m → Same y x → Same y n
thrice-Same n m x y (a, b, c) (d, e, f) (g, h, i) = (g ∙ d ∙ a, h ∙ e ∙ b, i ∙ f ∙ c)

-- The way from one state to another: the exit of the one, then the entry of the other.
crossing-Ran :
    (env : Env) (p q : NodeState) (e : Event AppEvent) (n m : Node)
    → is_outer e ≡ true
    → Handles p e n (m, some q)
    → let x = (handler env p evt_exit m).0 in
      Ran (in_state (app_state p)) n (in_state (app_state q), (handler env q evt_entry x).0)
crossing-Ran env p q e n m o h =
    let exit = handler-Handles env p evt_exit m in
    let x = (handler env p evt_exit m).0 in
    let entry = handler-Handles env q evt_entry x in
    record {
      packet = entry.packet ∙ exit.packet ∙ h.packet;
      initial = refl;
      moved = inr h.edge;
      watched = λ w.
          entry.wdt
          ∙ ap (wdt_after q evt_entry) exit.wdt
          ∙ crossing_wdt p q m.mcu.wdt_enabled h.edge
              (h.wdt ∙ outer_wdt p e n.mcu.wdt_enabled o ∙ w);
      quiet = entered-IsQuiet env q x;
      kept = thrice-Same n m x (handler env q evt_entry x).0 h.kept exit.kept entry.kept;
    }

transition-Ran :
    (env : Env) (p : NodeState) (e : Event AppEvent) (n m : Node) (ns : Option NodeState)
    → is_outer e ≡ true
    → Handles p e n (m, ns)
    → (p ≡ sleep → ns ≡ some idle)
    → Ran
        (in_state (app_state p))
        n
        (transition (handler env) same (in_state (app_state p)) (m, ns))
transition-Ran env p e n m none o h w = record {
  packet = h.packet;
  initial = refl;
  moved = inl refl;
  watched = λ v. h.wdt ∙ outer_wdt p e n.mcu.wdt_enabled o ∙ v;
  quiet = λ s. absurd (ground (arith, w));
  kept = h.kept;
}
transition-Ran env p e n m (some q) o h w =
    let d : same p q ≡ false = ground (arith, h.edge) in rw d (crossing-Ran env p q e n m o h)

wakes :
    (env : Env) (p : NodeState) (e : Event AppEvent) (n : Node)
    → is_outer e ≡ true
    → p ≡ sleep
    → (handler env p e n).1 ≡ some idle
wakes env sleep e n o h = ap (λ out. out.1) (sleep_handler_wakes e n o)
wakes env powerup e n o h = absurd (ground arith)
wakes env idle e n o h = absurd (ground arith)
wakes env dfu e n o h = absurd (ground arith)
wakes env shunt e n o h = absurd (ground arith)
wakes env testmode e n o h = absurd (ground arith)

pub run-Ran :
    (env : Env) (s : State NodeState) (e : Event AppEvent) (n : Node)
    → is_outer e ≡ true
    → Ran (in_state s) n (kissm_run (handler env) same e (in_state s, n))
unfolding kissm_run
run-Ran env kissm_initial e n o =
    let entry = handler-Handles env powerup evt_entry n in
    record {
      packet = entry.packet;
      initial = refl;
      moved = inr refl;
      watched = λ w. entry.wdt ∙ w;
      quiet = λ h. absurd (ground arith);
      kept = entry.kept;
    }
run-Ran env (app_state p) e n o =
    let out = handler env p e n in
    transition-Ran env p e n out.0 out.1 o (handler-Handles env p e n) (wakes env p e n o)

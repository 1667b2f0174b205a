-- ===== src/Lib.antt =====
-- The firmware of a battery cell node (BMSNode, ATtiny1614). Each cell of a battery pack has one
-- node. All nodes share one serial wire with a controller: they receive packets, answer those with
-- their address, measure the cell and its temperatures, and burn off charge through a shunt.
--
-- The parts, and how they meet:
--
-- * Ser models src/ser.c: the transmit ring and the switching of the one wire between transmit and
--   receive. Ser/Queue relates the ring to a queue, Ser/Duplex treats the orders of interrupts,
--   Ser/Interleave interrupts in the loop of a write.
-- * Pkt models src/pkt.c. The receive interrupt feeds `pkt_parser` byte by byte; `pkt_ready` hands
--   the packet to the command processor, which frees it by `pkt_rx_free`. `pkt_send` writes to the
--   ring. Pkt/Frame has the packet format of doc/packet.md, Pkt/Steps the parser's way through a
--   packet, Pkt/Receive and Pkt/Send the two ends, Pkt/Bounds, Pkt/Owner and Pkt/Ends the receive
--   buffer and how long a packet can hold it.
-- * Crc has the crc of packets and of the configuration. The firmware takes the function from
--   avr-libc, so most theorems hold for any. Crc/Detect and Crc/Division treat the C form in
--   test/util/crc16.c: what it detects, for Pkt/Corrupt, and that it is a polynomial division.
-- * LinkedList models src/list.c with a pointer for every address, and Tmr models src/tmr.c: the 16
--   bit tick, timeouts against it and the list of timers. A function that reads the tick takes it
--   as an argument.
-- * Cfg models src/cfg.c. The configuration is its 26 bytes at the offsets of Cfg/Offset; the
--   EEPROM functions of avr-libc are a record of two functions with the laws that a block is read
--   with the length asked for, and reads back as it was written.
-- * Therm models src/thermistor_table.c, Adc models src/adc.c, where the result of a conversion is
--   a parameter, Led models src/led.c, Shunt models src/shunt.c and TestMode models src/testmode.c.
--   Board joins what they drive.
-- * Pins models the port registers and the masks of src/iomap.h, and Pins/Outputs shows that the
--   fields of Board stand for the bits that the firmware writes.
-- * Kissm models src/kissm.c, the runner of state machines, over the states of a client.
-- * Node joins the state of all modules, Cmd with Cmd/Code models src/cmd.c, and Main models
--   src/main.c: a pass of the main loop and the start, with the six states in Main/States. A field
--   of `Node` stands for the statics of a file, and a function of the code that changes statics is
--   a function from state to state. Interrupts are steps of their own: Main/Run has a node from its
--   start on with interrupts between the passes, and Main/Reset what a reset leaves.
-- * Main/Preempt has the main loop in smaller steps, the calls that `main_loop` and `cmd_process`
--   make, with interrupts between any two of them; Main/Preempt/Pass relates them to whole passes.
--   What holds at every such moment stands in Main/Preempt/Owned and Main/Preempt/Held for the
--   packet, Main/Preempt/Fit for the wire, Main/Preempt/Awake for the state timer, and
--   Main/Preempt/Outputs for loads and LEDs. Main/Preempt/Movers says for which steps a byte may as
--   well arrive after them.
-- * What a pass does to whole nodes stands in Main/Life, Main/Timeout, Main/Lull, Main/Show,
--   Main/Fit, Main/Load, Main/Readings, Main/Cold and Main/Unattended, with what the command processor adds in
--   Cmd/Link, Cmd/Show and Cmd/Load. Cmd/Exchange and Main/Inquiry have a request and its reply
--   over the wire, Cmd/Address whom a packet is for, Cmd/Speak what a node answers, Cmd/Recover and
--   Cmd/Stale the timeout of a packet, Cmd/Report and Cmd/Discover the payloads by doc/command.md.
--   TestMode/Switch has one test function after another.
-- * Bus joins any number of nodes on one wire: a packet reaches all of them, and what they answer
--   reaches the others. Bus/Take and Bus/Hear have one node, Bus/Members pairs of nodes, Bus/Voice
--   the one that answers, Bus/Rest and Bus/Turn all of them, and Bus/Talk one packet after another
--   from the start of the nodes on. What the main loop does beside the command processor and the
--   freeing of the packet is left out there.
-- * Prelude has the words, lists and tests that all share, Tests the examples.
--
-- A byte and a 16 bit number are numbers that every operation reduces where the code can wrap:
-- `u8`, `u16` and `u32` of Prelude/Words. Signed values are integers of Prelude/Int, with the bit
-- patterns of two's complement. Arithmetic is that of the target, where `int` has 16 bits.
--
-- The loops over the timer list take fuel; the theorems ask for more fuel than there are timers,
-- and the firmware has one timer, for which Main gives fuel 2; Tmr/Fuel shows that more changes
-- nothing. All other loops are recursions on a count of the code.
--
-- Not modelled: the set-up registers of clock, USART, converters and timers but for the bits that
-- the code tests or switches; the reset that DFU asks for, which is a bit of `Mcu`; what happens
-- while the processor sleeps, since the entry of `sleep` goes on when it wakes; an interrupt inside
-- one of the steps of Main/Preempt, but for the loop of `ser_write`, where the store of a byte and
-- the step of its index are one; the code under `#if 0` and `UNIT_TEST`; and the build, provisioning
-- and test files. A division by zero, which C leaves undefined, gives 0.
pub mod Prelude
pub mod Crc
pub mod Ser
pub mod Pkt
pub mod LinkedList
pub mod Tmr
pub mod Cfg
pub mod Therm
pub mod Adc
pub mod Led
pub mod Shunt
pub mod Board
pub mod TestMode
pub mod Pins
pub mod Kissm
pub mod Node
pub mod Cmd
pub mod Bus
pub mod Main
pub mod Tests

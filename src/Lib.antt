-- ===== src/Lib.antt =====
-- The DPDK sample programs of this repository: small programs, each in a directory of its own, that bring
-- a port up, take packets apart, pass them between threads, route them in a graph or filter them.
--
-- The programs share no code, but they share a library, DPDK, which is not part of the repository. Dpdk
-- holds what they use of it:
--   * Dpdk/Calls: a program asks a driver, by a `Request`, and every answer goes into a trace. The
--     theorems hold for every driver, that is for every behaviour of the library, unless a hypothesis says
--     otherwise. A pointer is a number and 0 is NULL. NUMA sockets and messages on stdout are left out.
--   * Dpdk/Program: the monad of the programs, with `return` from the middle of a function, `rte_exit`
--     and loops that run for a given number of rounds.
--   * Dpdk/Protocol: what a part of DPDK asks of its user, as a state machine over the trace. Instances are
--     Dpdk/Lifecycle for ethdev (configure a port, set up its queues, start, and only then send and
--     receive), Metering/Meters for rte_mtr and rte_flow, EventSetup/Device for event devices (which are not
--     to be started before every queue is linked), and, for what a program itself is to send,
--     EventSetup/Workers/Production.
--   * Dpdk/Rules: the rules by which a protocol is proved of a program, call by call.
--   * Dpdk/Ownership, Dpdk/Bursts, Dpdk/Loops: buffers as they come and go, counted by address.
--   * Dpdk/RingApi: `rte_ring` as an interface, with a list as an instance.
--
-- The parts, and the sources that they model:
--   * Ports: port_init/port_init.c (Ports/PortInit), port_init2/port.c (PortInit2),
--     packet_parsing/port_init.c and mem_pool.c (Initialize), eventdev_packet_parsing/port.c (EventPort) and
--     port_init/notes.c, which the makefile does not build (Notes). Ports/Each is the loop over the ports.
--     Ports/Contract says what a function that brings up a port promises.
--   * Parsing: packet_parsing/packet_process.c (Parsing/PacketProcess, ProcessPacket),
--     packet_parsing/mbuf_info.c (MbufInfo), eventdev_packet_parsing/parse.c (Parse),
--     packet_parseer_ring/parser.c (PacketInfo), port_init2/rx_loop.c (RxLoop), and the mains of
--     packet_parsing and port_init2 (Mains). A frame is a list of bytes,
--     and a read outside it is `none`. Parsing/Frames describes frames by their meaning.
--   * Pipeline: the threads of packet_parseer_ring/receive.c, parser.c and transmit.c as state machines
--     whose steps interleave in any order.
--   * Graph: graph_dpdk/main.c (Graph/PerPacket), disable_node/main.c (Graph/Batched) and
--     2_source_graph/main.c (Graph/TwoSources). A node's process function tells what it enqueues on which
--     edge. The walk over the nodes belongs to the graph library: Graph/Walks takes every order in which it may
--     run them. Graph/Edges and Wiring read the edges by the names in the registrations.
--   * Prefetch: prefetch/main.c.
--   * Firewall: ACL_DPDK_2/main.c (Firewall/Rules, Match, Loop, Program) and ACL_DPDK/main.c (Classifier).
--     rte_acl is a parameter, with its documentation as a hypothesis.
--   * Events: the workers and the producer of eventdev/main.c (Events/Workers, Exits), and the handlers of
--     eventdev_packet_parsing/main.c (Events/Handlers). The event device is left out: it may deliver any
--     event to any worker, and nothing is promised about when.
--   * Messages: Multiple_Sender_MP/sec.c, a sender of multi-process messages with its retries
--     (Messages/Sender, Retries); the primaries that answer, Multiple_Sender_MP/prim.c,
--     Multiple_Msg_Passing/prim.c and Message_Passing_DPDK/prim.c (Receiver, Decimal, Replies); and the other
--     two secondaries, Multiple_Msg_Passing/sec.c and Message_Passing_DPDK/sec.c (Asking).
--   * EventSetup: the mains around an event device: eventdev/main.c (EventSetup/Workers),
--     eventdev_packet_parsing/main.c (PacketMain), beginner_eventdev/main.c (Beginner), ipc_eventdev/prim.c
--     and sec.c (Ipc), ipc_eventdev2/primary.c and secondary.c (Ipc2).
--   * Metering: meter_dpdk/main.c.
--   * Memory: mem_info2/main.c (Memory/MemInfo2), mem_info/main.c (MemInfo), mem_pool/mem_pool.c and
--     mem_pool2.c (MemPool). The calls on one buffer are an interface, Memory/Buffers, and the stores of
--     the programs are Memory/Stores.
--   * Rcu: the reader and the writer of rcu_dpdk/main.c as a step relation.
--   * Rings: the processes of full_duplex_2_rings/prim.c and sec.c as a step relation
--     (Rings/Duplex), and those of ipc_ring_pri_sec/prim.c and sec.c as another (Rings/Ipc);
--     the ways of these processes to their rings (Rings/SetUp), and rte_ring_single/rte_ring.c (Rings/Single).
--   * Cores: lcore/lcore.c and lcore_thread/lcore.c (Cores/Launch), timer_dpdk/main.c (Timer) and
--     fragmentation/main.c (Fragments).
--   * Vhost: vhost/tx.c and vhost/vhost.c.
--   * Reordering: reorder_packet/main.c, reorder_packet2/main.c and reorder_2/main.c.
-- Each part has a module Tests, with runs at concrete inputs.
--
-- Bounds. A counter or an offset is a natural number; where the source's type can wrap, the wrap is
-- written out (`% 2 ^ 64` for the packet counter of prefetch/main.c, `% 256` for a header length in a
-- byte). Fields of a frame are read as a little-endian machine does. RTE_ETH_FOREACH_DEV is
-- given 33 rounds, one more than there are ports: a port number grows in each. Endless loops, and loops
-- that a signal ends, run for any number of rounds, and the theorems hold for each.
--
-- Not modelled: what only prints, what is commented out, what stands behind the `continue` of
-- fragmentation/main.c, the loads of prefetch/main.c that nothing uses, the makefiles, texts and binaries.
pub mod Prelude
pub mod Dpdk
pub mod Ports
pub mod Parsing
pub mod Pipeline
pub mod Graph
pub mod Prefetch
pub mod Firewall
pub mod Events
pub mod EventSetup
pub mod Messages
pub mod Metering
pub mod Memory
pub mod Rcu
pub mod Cores
pub mod Rings
pub mod Vhost
pub mod Reordering

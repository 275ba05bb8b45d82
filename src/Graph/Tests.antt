-- ===== src/Graph/Tests.antt =====
-- Concrete bursts and drivers for the graph programs.
use dpdk_folder.Prelude.{◌++◌, ℕ, some, List, [], ◌∷◌, ◌≡◌, refl, arith, pos, negsuc}
use dpdk_folder.Dpdk.{
  Mbuf, Driver, pool_create, graph_lookup, dev_configure, value_of, done, machine,
}
use dpdk_folder.Graph.Nodes.{Enqueue, stream, AllFrames, Routes}
use dpdk_folder.Graph.Launch.{graph_main, walk_times}
use dpdk_folder.Graph.PerPacket
use dpdk_folder.Graph.PerPacket.Program as PerPacketProgram
use dpdk_folder.Graph.Batched
use dpdk_folder.Graph.Batched.Program as BatchedProgram
use dpdk_folder.Graph.TwoSources
use dpdk_folder.Graph.Routing.{ipv4_nodes_agree}
use dpdk_folder.Graph.Wiring.{graphs-WellWired}
use dpdk_folder.Graph.Edges.{Delivers, Feeds}
use dpdk_folder.Graph.Walks.{
  Waiting, receives2, routes, sends, Reachable, stays, then_steps, walking,
}
use dpdk_folder.Graph.Walks.Packets.{Conserved}
use dpdk_folder.Graph.Walks.Conserved.{graph_walks-Conserved}

-- A frame with the given EtherType.
abbrev frame : (addr hi lo : ℕ) → Mbuf
frame addr hi lo = record {
  addr = addr;
  bytes = 1 ∷ 2 ∷ 3 ∷ 4 ∷ 5 ∷ 6 ∷ 7 ∷ 8 ∷ 9 ∷ 10 ∷ 11 ∷ 12 ∷ hi ∷ lo ∷ 69 ∷ [];
}

-- IPv4, ARP, IPv4
abbrev burst : List Mbuf
burst = frame 1 8 0 ∷ frame 2 8 6 ∷ frame 3 8 0 ∷ []

abbrev routed : List Enqueue × ℕ
routed = (
  record { edge = 0; objs = frame 1 8 0 ∷ frame 3 8 0 ∷ [] }
      ∷ record { edge = 1; objs = frame 2 8 6 ∷ [] }
      ∷ [],
  3,
)

batches : Batched.ipv4_node_process burst ≡ some routed
unfolding Batched.ipv4_node_process Batched.sort_each Batched.store Batched.enqueue_some
batches = refl

routed-Routes : Routes burst routed
routed-Routes = record {
  to_tx = refl;
  to_drop = refl;
  elsewhere = λ e. ground arith;
  handled = refl;
}

burst-AllFrames : AllFrames burst
burst-AllFrames = (omega arith, (omega arith, (omega arith, tt)))

ipv4_nodes_agree_example :
    (r : List Enqueue × ℕ) × (s : List Enqueue × ℕ) × (PerPacket.ipv4_node_process burst ≡ some r)
    × (Batched.ipv4_node_process burst ≡ some s)
    × ((e : ℕ) → stream e r.0 ≡ stream e s.0)
    × (r.1 ≡ s.1)
ipv4_nodes_agree_example = ipv4_nodes_agree burst burst-AllFrames (omega arith)

-- A port that takes one packet, a pool at 7, a graph at 9.
abbrev slow : Driver
slow = record {
  int = λ n r. pos 0;
  word = λ n r. elim r [ pool_create _ _ _ ↦ 7 | graph_lookup _ ↦ 9 | _ ↦ 1 ];
  burst = λ n r. [];
}

-- The same port, where it cannot be configured: the queues are set up nevertheless.
abbrev unconfigured : Driver
unconfigured = record slow { int = λ n r. elim r [ dev_configure _ _ _ ↦ negsuc 0 | _ ↦ pos 0 ] }

main_ignores_failure : (value_of (PerPacketProgram.main 0 unconfigured []) ≡ done (pos 0))
unfolding PerPacketProgram.main graph_main walk_times machine
main_ignores_failure = refl

-- A port that gives the burst, and takes one packet of two.
abbrev giving : Driver
giving = record { int = λ n r. pos 0; word = λ n r. 1; burst = λ n r. burst }

-- The second source polls, the burst is routed, and the transmit node sends.
walked : (s : Waiting) × Reachable giving walking s
unfolding TwoSources.rx_node_process2 TwoSources.ipv4_node_process TwoSources.tx_node_process
    Batched.ipv4_node_process Batched.sort_each Batched.store Batched.enqueue_some machine
walked = (
  _,
  then_steps
      (then_steps (then_steps stays (receives2 _ _ _ refl))
        (routes burst [] _ _ refl (omega arith) refl))
      (sends (frame 1 8 0 ∷ frame 3 8 0 ∷ []) [] _ _ refl refl),
)

graph_walks-Conserved_example : Conserved walked.0
graph_walks-Conserved_example =
    graph_walks-Conserved giving walked.0 (λ n. burst-AllFrames) walked.1

-- The array of graph_dpdk's source holds the burst twice.
graphs-WellWired_example :
    Feeds PerPacket.rx_node PerPacket.ipv4_node burst 3
      (value_of (PerPacketProgram.rx_node_process (burst ++ burst) giving []))
    × Feeds Batched.rx_node Batched.ipv4_node burst 3
        (value_of (BatchedProgram.rx_node_process giving []))
    × Feeds TwoSources.rx_node1 TwoSources.ipv4_node burst 3
        (value_of (TwoSources.rx_node_process1 giving []))
    × Feeds TwoSources.rx_node2 TwoSources.ipv4_node burst 3
        (value_of (TwoSources.rx_node_process2 giving []))
    × Delivers PerPacket.ipv4_node PerPacketProgram.tx_node PerPacketProgram.drop_node burst
        (PerPacket.ipv4_node_process burst)
    × Delivers Batched.ipv4_node BatchedProgram.tx_node BatchedProgram.drop_node burst
        (Batched.ipv4_node_process burst)
    × Delivers TwoSources.ipv4_node TwoSources.tx_node TwoSources.drop_node burst
        (TwoSources.ipv4_node_process burst)
graphs-WellWired_example =
    graphs-WellWired giving [] (burst ++ burst) burst burst-AllFrames (omega arith)

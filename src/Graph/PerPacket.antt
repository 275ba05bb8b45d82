-- ===== src/Graph/PerPacket.antt =====
-- graph_dpdk/main.c: the registrations of the nodes with edges, and the IPv4 node.
pub mod Program
use dpdk_folder.Prelude.{ℕ, ◌==◌, if◌then◌else◌, true, false, Option, some, List, [], ◌∷◌, length}
use dpdk_folder.Dpdk.{Mbuf}
use dpdk_folder.Parsing.Reader.{◌>>=◌, be16}
use dpdk_folder.Parsing.Headers.{type_ipv4}
use dpdk_folder.Graph.Nodes.{NodeRegister, Enqueue}

abbrev pub rx_node : NodeRegister
rx_node = record { name = "rx_node"; is_source = true; nb_edges = 1; next_nodes = "ipv4_node" ∷ [] }

abbrev pub ipv4_node : NodeRegister
ipv4_node = record {
  name = "ipv4_node";
  is_source = false;
  nb_edges = 2;
  next_nodes = "tx_node" ∷ "drop_node" ∷ [];
}

-- `rte_node_enqueue_x1(graph, node, edge, pkt)` for one packet. Reading the EtherType of a frame that has
-- none is `none`.
unfoldable pub enqueue_one : Mbuf → Option Enqueue
enqueue_one pkt = do
  ether_type ← be16 pkt.bytes 12
  some (record { edge = if ether_type == type_ipv4 then 0 else 1; objs = pkt ∷ [] })

unfoldable pub enqueue_each : List Mbuf → Option (List Enqueue)
enqueue_each [] = some []
enqueue_each (pkt ∷ objs) = do q ← enqueue_one pkt; qs ← enqueue_each objs; some (q ∷ qs)

unfoldable pub ipv4_node_process : (objs : List Mbuf) → Option (List Enqueue × ℕ)
ipv4_node_process objs = do qs ← enqueue_each objs; some (qs, length objs)

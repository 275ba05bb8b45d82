-- ===== src/Graph/Batched.antt =====
-- disable_node/main.c, and 2_source_graph/main.c with the same text: the registrations of the nodes with
-- edges, and the IPv4 node, which sorts a burst into two arrays.
pub mod Program
use dpdk_folder.Prelude.{
  ℕ, ◌==◌, ltb, if◌then◌else◌, true, false, Option, none, some, List, [], ◌∷◌, ◌++◌, length,
}
use dpdk_folder.Dpdk.{Mbuf}
use dpdk_folder.Parsing.Reader.{◌>>=◌, be16}
use dpdk_folder.Parsing.Headers.{type_ipv4}
use dpdk_folder.Graph.Nodes.{NodeRegister, Enqueue}

abbrev pub rx_node : NodeRegister
rx_node = record { name = "rx_node"; is_source = true; nb_edges = 1; next_nodes = "ipv4_node" ∷ [] }

abbrev pub ipv4_node : NodeRegister
ipv4_node = record {
  name = "ipv4_node";
  is_source = false;
  nb_edges = 2;
  next_nodes = "tx_node" ∷ "drop_node" ∷ [];
}

-- RTE_GRAPH_BURST_SIZE, the size of the arrays.
abbrev pub array_size : ℕ
array_size = 256

-- `pkts[nb++] = pkt`, where `pkts` holds the first `nb` elements. A write behind the end is `none`.
unfoldable pub store : List Mbuf → Mbuf → Option (List Mbuf)
store pkts pkt = if ltb (length pkts) array_size then some (pkts ++ pkt ∷ []) else none

-- The loop, with the arrays so far.
unfoldable pub sort_each : (objs tx_pkts drop_pkts : List Mbuf) → Option (List Mbuf × List Mbuf)
sort_each [] tx_pkts drop_pkts = some (tx_pkts, drop_pkts)
sort_each (pkt ∷ objs) tx_pkts drop_pkts = do
  ether_type ← be16 pkt.bytes 12
  tx_pkts' ← (if ether_type == type_ipv4 then store tx_pkts pkt else some tx_pkts)
  drop_pkts' ← (if ether_type == type_ipv4 then some drop_pkts else store drop_pkts pkt)
  sort_each objs tx_pkts' drop_pkts'

-- `if (nb) rte_node_enqueue(graph, node, edge, pkts, nb);`
unfoldable pub enqueue_some : (edge : ℕ) (pkts : List Mbuf) → List Enqueue
enqueue_some edge pkts = if length pkts == 0 then [] else record { edge = edge; objs = pkts } ∷ []

unfoldable pub ipv4_node_process : (objs : List Mbuf) → Option (List Enqueue × ℕ)
ipv4_node_process objs = do
  (tx_pkts, drop_pkts) ← sort_each objs [] []
  some (enqueue_some 0 tx_pkts ++ enqueue_some 1 drop_pkts, length objs)

-- ===== src/Graph/TwoSources.antt =====
-- 2_source_graph/main.c: two source nodes, which poll the same queue, and main.
use dpdk_folder.Prelude.{
  ℕ, ◌==◌, if◌then◌else◌, ℤ, List, [], ◌∷◌, length, Bool, true, false, ◌||◌, Option,
}
use dpdk_folder.Dpdk.{Mbuf, M, ◌>>=◌, ◌>>◌, pure, ask_word, ask_burst, rx_burst, tx_burst}
use dpdk_folder.Dpdk.Bursts.{free_all}
use dpdk_folder.Graph.Nodes.{NodeRegister, Enqueue}
use dpdk_folder.Graph.Batched
use dpdk_folder.Graph.Launch.{graph_main}

-- `force_quit` behind the handler; SIGINT is 2 and SIGTERM is 15.
unfoldable pub signal_handler : (signum : ℕ) (force_quit : Bool) → Bool
signal_handler signum force_quit = if signum == 2 || signum == 15 then true else force_quit

abbrev pub rx_node1 : NodeRegister
rx_node1 = record {
  name = "rx_node1";
  is_source = true;
  nb_edges = 1;
  next_nodes = "ipv4_node" ∷ [];
}

abbrev pub rx_node2 : NodeRegister
rx_node2 = record {
  name = "rx_node2";
  is_source = true;
  nb_edges = 1;
  next_nodes = "ipv4_node" ∷ [];
}

-- The burst is received into the node's array, and enqueued from it.
unfoldable pub rx_node_process1 : M (List Enqueue × ℕ)
rx_node_process1 = do
  pkt ← ask_burst (rx_burst 0 0 32)
  let nb_rx = length pkt
  pure (if nb_rx == 0 then [] else record { edge = 0; objs = pkt } ∷ [], nb_rx)

-- The burst is received into the node's array, and enqueued from it.
unfoldable pub rx_node_process2 : M (List Enqueue × ℕ)
rx_node_process2 = do
  pkt ← ask_burst (rx_burst 0 0 32)
  let nb_rx = length pkt
  pure (if nb_rx == 0 then [] else record { edge = 0; objs = pkt } ∷ [], nb_rx)

abbrev pub ipv4_node : NodeRegister
ipv4_node = record {
  name = "ipv4_node";
  is_source = false;
  nb_edges = 2;
  next_nodes = "tx_node" ∷ "drop_node" ∷ [];
}

-- Its text is that of disable_node/main.c.
unfoldable pub ipv4_node_process : (objs : List Mbuf) → Option (List Enqueue × ℕ)
ipv4_node_process objs = Batched.ipv4_node_process objs

abbrev pub tx_node : NodeRegister
tx_node = record { name = "tx_node"; is_source = false; nb_edges = 0; next_nodes = [] }

abbrev pub drop_node : NodeRegister
drop_node = record { name = "drop_node"; is_source = false; nb_edges = 0; next_nodes = [] }

unfoldable pub tx_node_process : (objs : List Mbuf) → M ℕ
tx_node_process objs = ask_word (tx_burst 0 0 objs)

unfoldable pub drop_node_process : (objs : List Mbuf) → M ℕ
drop_node_process objs = do free_all objs; pure (length objs)

unfoldable pub main : (walks : ℕ) → M ℤ
main = graph_main ("rx_node1" ∷ "rx_node2" ∷ [])

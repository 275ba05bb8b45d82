-- ===== src/Graph/Batched/Program.antt =====
-- disable_node/main.c: the nodes at both ends of the graph, and main.
use dpdk_folder.Prelude.{ℕ, ◌==◌, if◌then◌else◌, ℤ, List, [], ◌∷◌, length, Bool, true, false, ◌||◌}
use dpdk_folder.Dpdk.{Mbuf, M, ◌>>=◌, ◌>>◌, pure, ask_word, ask_burst, rx_burst, tx_burst}
use dpdk_folder.Dpdk.Bursts.{free_all}
use dpdk_folder.Graph.Nodes.{NodeRegister, Enqueue}
use dpdk_folder.Graph.Launch.{graph_main}

-- `force_quit` behind the handler; SIGINT is 2 and SIGTERM is 15.
unfoldable pub signal_handler : (signum : ℕ) (force_quit : Bool) → Bool
signal_handler signum force_quit = if signum == 2 || signum == 15 then true else force_quit

-- The burst is received into the node's array, and enqueued from it.
unfoldable pub rx_node_process : M (List Enqueue × ℕ)
rx_node_process = do
  pkt ← ask_burst (rx_burst 0 0 32)
  let nb_rx = length pkt
  pure (if nb_rx == 0 then [] else record { edge = 0; objs = pkt } ∷ [], nb_rx)

abbrev pub tx_node : NodeRegister
tx_node = record { name = "tx_node"; is_source = false; nb_edges = 0; next_nodes = [] }

abbrev pub drop_node : NodeRegister
drop_node = record { name = "drop_node"; is_source = false; nb_edges = 0; next_nodes = [] }

unfoldable pub tx_node_process : (objs : List Mbuf) → M ℕ
tx_node_process objs = ask_word (tx_burst 0 0 objs)

unfoldable pub drop_node_process : (objs : List Mbuf) → M ℕ
drop_node_process objs = do free_all objs; pure (length objs)

unfoldable pub main : (walks : ℕ) → M ℤ
main = graph_main ("rx_node" ∷ [])

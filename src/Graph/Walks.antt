-- ===== src/Graph/Walks.antt =====
-- The nodes of 2_source_graph/main.c together, whatever order the graph library takes them in: a step runs one
-- process function, on packets that wait for its node, and what it enqueues waits for the next node.
use dpdk_folder.Prelude.{ℕ, ◌+◌, ◌≤◌, ◌≡◌, List, [], ◌∷◌, ◌++◌, length, some}
use dpdk_folder.Dpdk.{Mbuf, Driver, Trace, done}
use dpdk_folder.Graph.Nodes.{Enqueue, stream}
use dpdk_folder.Graph.TwoSources.{
  rx_node_process1, rx_node_process2, ipv4_node_process, tx_node_process, drop_node_process,
}
pub mod Packets
pub mod Conserved

-- The calls so far, and the packets that wait for each node.
pub record Waiting : Type 0 where
  pub calls : Trace
  pub at_ipv4 : List Mbuf
  pub at_tx : List Mbuf
  pub at_drop : List Mbuf

-- A node is handed the first of its packets, at most RTE_GRAPH_BURST_SIZE; `later` are the others.
pub data Step (d : Driver) : Waiting → Waiting → Type 0 where
  receives1 :
      {s : Waiting} (qs : List Enqueue) (n : ℕ) (h : Trace)
      → rx_node_process1 d s.calls ≡ (done (qs, n), h)
      → Step d s (record s { calls = h; at_ipv4 = s.at_ipv4 ++ stream 0 qs })
  receives2 :
      {s : Waiting} (qs : List Enqueue) (n : ℕ) (h : Trace)
      → rx_node_process2 d s.calls ≡ (done (qs, n), h)
      → Step d s (record s { calls = h; at_ipv4 = s.at_ipv4 ++ stream 0 qs })
  routes :
      {s : Waiting} (objs later : List Mbuf) (qs : List Enqueue) (n : ℕ)
      → s.at_ipv4 ≡ objs ++ later
      → length objs ≤ 256
      → ipv4_node_process objs ≡ some (qs, n)
      → Step d s (record s {
        at_ipv4 = later;
        at_tx = s.at_tx ++ stream 0 qs;
        at_drop = s.at_drop ++ stream 1 qs;
      })
  sends :
      {s : Waiting} (objs later : List Mbuf) (n : ℕ) (h : Trace)
      → s.at_tx ≡ objs ++ later
      → tx_node_process objs d s.calls ≡ (done n, h)
      → Step d s (record s { calls = h; at_tx = later })
  drops :
      {s : Waiting} (objs later : List Mbuf) (n : ℕ) (h : Trace)
      → s.at_drop ≡ objs ++ later
      → drop_node_process objs d s.calls ≡ (done n, h)
      → Step d s (record s { calls = h; at_drop = later })

pub data Reachable (d : Driver) : Waiting → Waiting → Type 0 where
  stays : {s : Waiting} → Reachable d s s
  then_steps : {s t u : Waiting} → Reachable d s t → Step d t u → Reachable d s u

-- Behind main's set-up.
abbrev pub walking : Waiting
walking = record { calls = []; at_ipv4 = []; at_tx = []; at_drop = [] }

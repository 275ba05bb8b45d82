-- ===== src/Graph.antt =====
-- The programs over rte_graph: graph_dpdk/main.c, disable_node/main.c and 2_source_graph/main.c. The graph
-- library itself, which walks the nodes and hands each the packets enqueued for it, is not modelled:
-- a node's process function is a function of the packets it is handed, and tells what it enqueues.
pub mod Nodes
pub mod Launch
pub mod PerPacket
pub mod Batched
pub mod TwoSources
pub mod Routing
pub mod Sinks
pub mod Mains
pub mod Walks
pub mod Edges
pub mod Wiring
mod Tests

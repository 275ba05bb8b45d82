-- ===== src/Graph/Mains.antt =====
-- main of the three programs, against a port whose calls succeed.
use Prim.Native.String.{String}
use dpdk_folder.Prelude.{Bool, true, ◌<◌, ℕ, ℤ, pos, is_neg, false, List, ◌≡◌, ◌≢◌}
use dpdk_folder.Dpdk.{
  graph_walk, pool_create, graph_create, graph_lookup, Driver, Request, Outcome, done,
}
use dpdk_folder.Dpdk.Protocol.{Protocol}
use dpdk_folder.Dpdk.Lifecycle.{ethdev, PortState, fresh_port}
use dpdk_folder.Dpdk.Rules
use dpdk_folder.Dpdk.Rules.{At}
use dpdk_folder.Graph.PerPacket.Program as PerPacket
use dpdk_folder.Graph.Batched.Program as Batched
use dpdk_folder.Graph.TwoSources

-- ethdev's order for port 0, and the graph library's: the nodes receive and send on the port, so that the graph
-- is walked only while the port is started, with a receive queue and a send queue.
abbrev pub about_graph : Request → Bool
about_graph (graph_walk _) = true
about_graph r = (ethdev 0).concerns r

abbrev pub AllowedGraph : Request → PortState → Type 0
AllowedGraph (graph_walk _) s = (s.started ≡ true) × (0 < s.nb_rx) × (0 < s.nb_tx)
AllowedGraph r s = (ethdev 0).Allowed r s

abbrev pub port_and_graph : Protocol
port_and_graph = record {
  State = PortState;
  fresh = fresh_port;
  concerns = about_graph;
  Allowed = AllowedGraph;
  succeed = (ethdev 0).succeed;
}

-- No call of the driver fails.
pub record Obliges (d : Driver) : Type 0 where
  pub int : (n : ℕ) (r : Request) → is_neg (d.int n r) ≡ false
  pub pool : (n : ℕ) → d.word n (pool_create "MBUF_POOL" 8192 256) ≢ 0
  pub create :
      (n : ℕ) (patterns : List String) → d.word n (graph_create "ipv4_graph" patterns) ≢ 65535
  pub lookup : (n : ℕ) → d.word n (graph_lookup "ipv4_graph") ≢ 0

-- The process ends with 0 and a closed port.
abbrev pub Finishes : Outcome ℤ → PortState → Type 0
Finishes o s = (o ≡ done (pos 0)) × (s ≡ fresh_port)

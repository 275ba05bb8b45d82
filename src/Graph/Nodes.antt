-- ===== src/Graph/Nodes.antt =====
-- What the three programs share: registrations, enqueues, and what a router of IPv4 packets promises.
use Prim.Native.String.{String}
use dpdk_folder.Prelude.{
  ◌*◌, suc, ℕ, ◌+◌, ◌≤◌, ◌==◌, if◌then◌else◌, Bool, List, [], ◌∷◌, ◌++◌, length, get_or, ◌≡◌,
}
use dpdk_folder.Dpdk.{Mbuf}

-- `struct rte_node_register`, less the process function.
pub record NodeRegister : Type 0 where
  pub name : String
  pub is_source : Bool
  pub nb_edges : ℕ
  pub next_nodes : List String

-- `rte_node_enqueue(graph, node, edge, objs, n)`
pub record Enqueue : Type 0 where
  pub edge : ℕ
  pub objs : List Mbuf

-- What a run of enqueues, the oldest first, puts on an edge.
abbrev pub stream : ℕ → List Enqueue → List Mbuf
stream e [] = []
stream e (q ∷ qs) = if q.edge == e then q.objs ++ stream e qs else stream e qs

-- Whether a frame says that it holds IPv4: its EtherType, in network order, is 0x0800.
abbrev pub is_ipv4 : List ℕ → Bool
is_ipv4 bytes = get_or bytes 12 0 * 256 + get_or bytes 13 0 == 0x0800

-- The IPv4 packets of a burst, and the others, in order.
abbrev pub ipv4_packets : List Mbuf → List Mbuf
ipv4_packets [] = []
ipv4_packets (m ∷ ms) = if is_ipv4 m.bytes then m ∷ ipv4_packets ms else ipv4_packets ms

abbrev pub other_packets : List Mbuf → List Mbuf
other_packets [] = []
other_packets (m ∷ ms) = if is_ipv4 m.bytes then other_packets ms else m ∷ other_packets ms

-- Each frame has an Ethernet header.
abbrev pub AllFrames : List Mbuf → Type 0
AllFrames [] = Unit {0}
AllFrames (m ∷ ms) = (14 ≤ length m.bytes) × AllFrames ms

-- What a router promises of a burst: every IPv4 packet goes to edge 0 and every other packet to edge 1,
-- in order, none is lost or made, and the result is their number.
pub record Routes (objs : List Mbuf) (r : List Enqueue × ℕ) : Type 0 where
  pub to_tx : stream 0 r.0 ≡ ipv4_packets objs
  pub to_drop : stream 1 r.0 ≡ other_packets objs
  pub elsewhere : (e : ℕ) → stream (suc (suc e)) r.0 ≡ []
  pub handled : r.1 ≡ length objs

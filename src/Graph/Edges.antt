-- ===== src/Graph/Edges.antt =====
-- What a node hands to another: its edges are read by the names in `next_nodes` of its registration.
use Prim.Native.Nat.{Ordering}
use Prim.Native.String.{String, compare}
use dpdk_folder.Prelude.{
  ℕ, zero, suc, ◌<◌, ◌≡◌, Bool, true, false, if◌then◌else◌, List, [], ◌∷◌, ◌++◌, length, Option,
  none, some,
}
use dpdk_folder.Dpdk.{Mbuf, Outcome, done}
use dpdk_folder.Graph.Nodes.{NodeRegister, Enqueue, ipv4_packets, other_packets}

abbrev pub same_name : String → String → Bool
same_name s t = elim (compare s t) [ Ordering.eq ↦ true | _ ↦ false ]

-- Whether the edge of a node with these `next_nodes` leads to the node `name`.
abbrev pub leads_to : (name : String) (next_nodes : List String) (edge : ℕ) → Bool
leads_to name [] edge = false
leads_to name (s ∷ next_nodes) zero = same_name s name
leads_to name (s ∷ next_nodes) (suc edge) = leads_to name next_nodes edge

-- What a run of enqueues by the node `from`, the oldest first, hands to the node `to`.
abbrev pub handed : (from to : NodeRegister) → List Enqueue → List Mbuf
handed from to [] = []
handed from to (q ∷ qs) =
    if leads_to to.name from.next_nodes q.edge
    then q.objs ++ handed from to qs
    else handed from to qs

-- Every enqueue is for an edge that the node registers.
abbrev pub EdgesBelow : ℕ → List Enqueue → Type 0
EdgesBelow n [] = Unit {0}
EdgesBelow n (q ∷ qs) = (q.edge < n) × EdgesBelow n qs

abbrev pub Stays : (edges : ℕ) → Option (List Enqueue × ℕ) → Type 0
Stays edges none = ⊥
Stays edges (some (qs, n)) = EdgesBelow edges qs

-- The router `node` hands the IPv4 packets of a burst to `tx` and the others to `drops`, in order, and
-- returns the number of packets.
pub record Delivers (node tx drops : NodeRegister) (objs : List Mbuf)
    (o : Option (List Enqueue × ℕ)) : Type 0 where
  pub result : List Enqueue × ℕ
  pub returns : o ≡ some result
  pub to_tx : handed node tx result.0 ≡ ipv4_packets objs
  pub to_drop : handed node drops result.0 ≡ other_packets objs
  pub handled : result.1 ≡ length objs
  pub stays : Stays node.nb_edges o

-- The source `node` hands `objs` to `next`, and returns `n`.
pub record Feeds (node next : NodeRegister) (objs : List Mbuf) (n : ℕ)
    (o : Outcome (List Enqueue × ℕ)) : Type 0 where
  pub result : List Enqueue × ℕ
  pub returns : o ≡ done result
  pub to_next : handed node next result.0 ≡ objs
  pub handled : result.1 ≡ n
  pub stays : EdgesBelow node.nb_edges result.0

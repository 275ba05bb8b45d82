-- ===== src/Graph/Wiring.antt =====
-- The nodes of the three programs hand packets to one another along the edges that they register.
use Prim.Native.String.{String}
use dpdk_folder.Prelude.{
  ℕ, zero, suc, ◌≤◌, ◌≡◌, refl, sym, ◌∙◌, ◌==◌, arith, if◌then◌else◌, List, [], ◌∷◌, ◌++◌, length,
  take, Option, some, Bool-cases, inl, inr, ==_iff,
}
use mathlib.Core.List.{append-nil}
use dpdk_folder.Dpdk.{Mbuf, Driver, Trace, done, value_of, rx_burst, machine}
use dpdk_folder.Graph.Nodes.{
  Enqueue, stream, is_ipv4, ipv4_packets, other_packets, AllFrames, Routes,
}
use dpdk_folder.Graph.Edges.{leads_to, handed, EdgesBelow, Stays, Delivers, Feeds}
use dpdk_folder.Graph.Routing.{
  enqueue_one_lem, sort_each_lem, ipv4_node_process-Routes, batched_ipv4_node_process-Routes,
}
use dpdk_folder.Graph.PerPacket
use dpdk_folder.Graph.PerPacket.Program as PerPacketProgram
use dpdk_folder.Graph.Batched
use dpdk_folder.Graph.Batched.Program as BatchedProgram
use dpdk_folder.Graph.TwoSources

first_edge : (e : ℕ) → leads_to "tx_node" ("tx_node" ∷ "drop_node" ∷ []) e ≡ (e == 0)
first_edge zero = refl
first_edge (suc zero) = refl
first_edge (suc (suc e)) = ground arith

second_edge : (e : ℕ) → leads_to "drop_node" ("tx_node" ∷ "drop_node" ∷ []) e ≡ (e == 1)
second_edge zero = refl
second_edge (suc zero) = refl
second_edge (suc (suc e)) = ground arith

handed-tx : (qs : List Enqueue) → handed Batched.ipv4_node BatchedProgram.tx_node qs ≡ stream 0 qs
handed-tx [] = refl
handed-tx (q ∷ qs) = rw (first_edge q.edge, handed-tx qs)

handed-drops :
    (qs : List Enqueue) → handed Batched.ipv4_node BatchedProgram.drop_node qs ≡ stream 1 qs
handed-drops [] = refl
handed-drops (q ∷ qs) = rw (second_edge q.edge, handed-drops qs)

Routes-Delivers :
    (objs : List Mbuf) (o : Option (List Enqueue × ℕ)) (r : List Enqueue × ℕ)
    → o ≡ some r
    → Routes objs r
    → Stays 2 o
    → Delivers Batched.ipv4_node BatchedProgram.tx_node BatchedProgram.drop_node objs o
Routes-Delivers objs o r e routes stays = record {
  result = r;
  returns = e;
  to_tx = handed-tx r.0 ∙ routes.to_tx;
  to_drop = handed-drops r.0 ∙ routes.to_drop;
  handled = routes.handled;
  stays = stays;
}

enqueue_each-EdgesBelow :
    (objs : List Mbuf)
    → AllFrames objs
    → (qs : List Enqueue) × (PerPacket.enqueue_each objs ≡ some qs) × EdgesBelow 2 qs
unfolding PerPacket.enqueue_each
enqueue_each-EdgesBelow [] h = ([], refl, tt)
enqueue_each-EdgesBelow (pkt ∷ objs) h =
    let (qs, e, below) = enqueue_each-EdgesBelow objs h.1 in
    elim (Bool-cases (is_ipv4 pkt.bytes)) [
      | inl v ↦ (
        record { edge = 0; objs = pkt ∷ [] } ∷ qs,
        rw (enqueue_one_lem pkt h.0, e, v) refl,
        (omega arith, below),
      )
      | inr v ↦ (
        record { edge = 1; objs = pkt ∷ [] } ∷ qs,
        rw (enqueue_one_lem pkt h.0, e, v) refl,
        (omega arith, below),
      )
    ]

per_packet-Stays : (objs : List Mbuf) → AllFrames objs → Stays 2 (PerPacket.ipv4_node_process objs)
unfolding PerPacket.ipv4_node_process
per_packet-Stays objs h = let (qs, e, below) = enqueue_each-EdgesBelow objs h in rw e below

batches-EdgesBelow :
    (tx drops : List Mbuf)
    → EdgesBelow 2 (Batched.enqueue_some 0 tx ++ Batched.enqueue_some 1 drops)
unfolding Batched.enqueue_some
batches-EdgesBelow tx drops = elim (Bool-cases (length tx == 0)) [
  | inl e ↦ elim (Bool-cases (length drops == 0)) [
    | inl f ↦ rw (e, f) tt
    | inr f ↦ rw (e, f) (omega arith, tt)
  ]
  | inr e ↦ elim (Bool-cases (length drops == 0)) [
    | inl f ↦ rw (e, f) (omega arith, tt)
    | inr f ↦ rw (e, f) (omega arith, (omega arith, tt))
  ]
]

batched-Stays :
    (objs : List Mbuf)
    → AllFrames objs
    → length objs ≤ 256
    → Stays 2 (Batched.ipv4_node_process objs)
unfolding Batched.ipv4_node_process
batched-Stays objs h fits =
    rw (sort_each_lem objs [] [] h (omega arith) (omega arith))
      (batches-EdgesBelow (ipv4_packets objs) (other_packets objs))

per_packet-Delivers :
    (objs : List Mbuf)
    → AllFrames objs
    → Delivers PerPacket.ipv4_node PerPacketProgram.tx_node PerPacketProgram.drop_node objs
        (PerPacket.ipv4_node_process objs)
per_packet-Delivers objs h =
    let (r, e, routes) = ipv4_node_process-Routes objs h in
    Routes-Delivers objs _ r e routes (per_packet-Stays objs h)

batched-Delivers :
    (objs : List Mbuf)
    → AllFrames objs
    → length objs ≤ 256
    → Delivers Batched.ipv4_node BatchedProgram.tx_node BatchedProgram.drop_node objs
        (Batched.ipv4_node_process objs)
batched-Delivers objs h fits =
    let (r, e, routes) = batched_ipv4_node_process-Routes objs h fits in
    Routes-Delivers objs _ r e routes (batched-Stays objs h fits)

two_sources-Delivers :
    (objs : List Mbuf)
    → AllFrames objs
    → length objs ≤ 256
    → Delivers TwoSources.ipv4_node TwoSources.tx_node TwoSources.drop_node objs
        (TwoSources.ipv4_node_process objs)
unfolding TwoSources.ipv4_node_process
two_sources-Delivers objs h fits = batched-Delivers objs h fits

-- What each source enqueues, when its count is 0 only for an empty burst.
feeds_lem :
    (name : String) (n : ℕ) (objs : List Mbuf)
    → (n ≡ 0 → objs ≡ [])
    → Feeds
        (record Batched.rx_node { name = name })
        Batched.ipv4_node
        objs
        n
        (done (if n == 0 then [] else record { edge = 0; objs = objs } ∷ [], n))
feeds_lem name n objs none_left = elim (Bool-cases (n == 0)) [
  | inl e ↦ record {
    result = ([], n);
    returns = rw e refl;
    to_next = sym (none_left ((==_iff n 0).0 e));
    handled = refl;
    stays = tt;
  }
  | inr e ↦ record {
    result = (record { edge = 0; objs = objs } ∷ [], n);
    returns = rw e refl;
    to_next = append-nil objs;
    handled = refl;
    stays = (omega arith, tt);
  }
]

take-none : (n : ℕ) (objs : List Mbuf) → n ≡ 0 → take n objs ≡ []
take-none n objs e = rw e refl

length-none : (objs : List Mbuf) → length objs ≡ 0 → objs ≡ []
length-none [] e = refl
length-none (m ∷ ms) e = absurd (omega arith)

-- With the edges of a node read by the names that it registers: whatever the port gives, each source of
-- disable_node/main.c and 2_source_graph/main.c hands the burst of port 0 to the IPv4 node, and that of
-- graph_dpdk/main.c hands as many buffers of its own array to it; on a burst of at most 256 frames with an
-- Ethernet header, the IPv4 node of each program hands the IPv4 packets to the transmit node and the others
-- to the drop node, in order. Each returns the number of packets, and uses only edges that it registers.
pub graphs-WellWired :
    (d : Driver) (h : Trace) (array objs : List Mbuf)
    → AllFrames objs
    → length objs ≤ 256
    → Feeds PerPacket.rx_node PerPacket.ipv4_node
        (take (length (d.burst (length h) (rx_burst 0 0 256))) array)
        (length (d.burst (length h) (rx_burst 0 0 256)))
        (value_of (PerPacketProgram.rx_node_process array d h))
      × Feeds Batched.rx_node Batched.ipv4_node
          (d.burst (length h) (rx_burst 0 0 32))
          (length (d.burst (length h) (rx_burst 0 0 32)))
          (value_of (BatchedProgram.rx_node_process d h))
      × Feeds TwoSources.rx_node1 TwoSources.ipv4_node
          (d.burst (length h) (rx_burst 0 0 32))
          (length (d.burst (length h) (rx_burst 0 0 32)))
          (value_of (TwoSources.rx_node_process1 d h))
      × Feeds TwoSources.rx_node2 TwoSources.ipv4_node
          (d.burst (length h) (rx_burst 0 0 32))
          (length (d.burst (length h) (rx_burst 0 0 32)))
          (value_of (TwoSources.rx_node_process2 d h))
      × Delivers PerPacket.ipv4_node PerPacketProgram.tx_node PerPacketProgram.drop_node objs
          (PerPacket.ipv4_node_process objs)
      × Delivers Batched.ipv4_node BatchedProgram.tx_node BatchedProgram.drop_node objs
          (Batched.ipv4_node_process objs)
      × Delivers TwoSources.ipv4_node TwoSources.tx_node TwoSources.drop_node objs
          (TwoSources.ipv4_node_process objs)
unfolding PerPacketProgram.rx_node_process BatchedProgram.rx_node_process
    TwoSources.rx_node_process1 TwoSources.rx_node_process2 machine
graphs-WellWired d h array objs frames fits =
    let taken = length (d.burst (length h) (rx_burst 0 0 256)) in
    let pkts = d.burst (length h) (rx_burst 0 0 32) in
    (
      feeds_lem "rx_node" taken (take taken array) (take-none taken array),
      feeds_lem "rx_node" (length pkts) pkts (length-none pkts),
      feeds_lem "rx_node1" (length pkts) pkts (length-none pkts),
      feeds_lem "rx_node2" (length pkts) pkts (length-none pkts),
      per_packet-Delivers objs frames,
      batched-Delivers objs frames fits,
      two_sources-Delivers objs frames fits,
    )

-- ===== src/Graph/Sinks.antt =====
-- What becomes of the packets of a burst behind the IPv4 nodes: the transmit node and the drop node.
use dpdk_folder.Prelude.{
  ℕ, ◌+◌, List, [], ◌∷◌, length, drop, ◌≡◌, refl, ap, arith, Bool-cases, inl, inr,
}
use dpdk_folder.Dpdk.{
  Mbuf, Driver, Trace, word_of, tx_burst, done, trace_of, value_of, ◌>>◌, machine,
}
use dpdk_folder.Dpdk.Ownership.{count, released, count-take-drop}
use dpdk_folder.Dpdk.Bursts.{frees, free_all-eq-frees, released-frees}
use dpdk_folder.Graph.Nodes.{Enqueue, stream, is_ipv4, ipv4_packets, other_packets, Routes}
use dpdk_folder.Graph.PerPacket.Program as PerPacket
use dpdk_folder.Graph.Batched.Program as Batched

count-packets :
    (a : ℕ) (objs : List Mbuf)
    → count a (ipv4_packets objs) + count a (other_packets objs) ≡ count a objs
count-packets a [] = omega arith
count-packets a (m ∷ ms) = elim (Bool-cases (is_ipv4 m.bytes)) [
  | inl e ↦ rw e (omega (arith, count-packets a ms))
  | inr e ↦ rw e (omega (arith, count-packets a ms))
]

count-streams :
    {objs : List Mbuf} {r : List Enqueue × ℕ} (a : ℕ)
    → Routes objs r
    → count a (stream 0 r.0) + count a (stream 1 r.0) ≡ count a objs
count-streams {objs} a routes =
    omega (arith, ap (count a) routes.to_tx, ap (count a) routes.to_drop, count-packets a objs)

module _ (d : Driver) (h : Trace) (objs : List Mbuf) (r : List Enqueue × ℕ)
    (routes : Routes objs r) where
  -- How many packets the port takes of edge 0.
  abbrev sent : ℕ
  sent = d.word (length h) (tx_burst 0 0 (stream 0 r.0))

  abbrev after_tx : Trace
  after_tx = word_of (tx_burst 0 0 (stream 0 r.0)) sent ∷ h

  released-after :
      (a : ℕ)
      → released a (frees (stream 1 r.0) after_tx) + count a (drop sent (stream 0 r.0))
        ≡ count a objs + released a h
  released-after a = omega (
    arith,
    released-frees a (stream 1 r.0) after_tx,
    count-take-drop a sent (stream 0 r.0),
    count-streams a routes,
  )

  -- Behind a router as in `Routes`, the transmit node and the drop node of graph_dpdk/main.c give every
  -- packet of a burst back as often as it is in the burst, except the IPv4 packets that the port does not
  -- take, which are lost; the transmit node nevertheless returns the number of all its packets.
  pub sinks_lose_unsent :
      (a : ℕ)
      → (released a (
              trace_of (
                (PerPacket.tx_node_process (stream 0 r.0)
                    >> PerPacket.drop_node_process (stream 1 r.0))
                  d h))
            + count a (drop sent (stream 0 r.0))
          ≡ count a objs + released a h)
        × (value_of (PerPacket.tx_node_process (stream 0 r.0) d h) ≡ done (length (stream 0 r.0)))
  unfolding PerPacket.tx_node_process PerPacket.drop_node_process machine
  sinks_lose_unsent a = rw (free_all-eq-frees (stream 1 r.0) d after_tx) (released-after a, refl)

  -- Behind such a router, the transmit node and the drop node of disable_node/main.c give back the same, and
  -- lose the same; there the transmit node returns how many packets the port took.
  pub batched_sinks_lose_unsent :
      (a : ℕ)
      → (released a (
              trace_of (
                (Batched.tx_node_process (stream 0 r.0) >> Batched.drop_node_process (stream 1 r.0))
                  d h))
            + count a (drop sent (stream 0 r.0))
          ≡ count a objs + released a h)
        × (value_of (Batched.tx_node_process (stream 0 r.0) d h) ≡ done sent)
  unfolding Batched.tx_node_process Batched.drop_node_process machine
  batched_sinks_lose_unsent a =
      rw (free_all-eq-frees (stream 1 r.0) d after_tx) (released-after a, refl)

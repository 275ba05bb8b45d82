-- ===== src/Graph/Routing.antt =====
-- The IPv4 nodes route as `Routes` says, one packet at a time or in two batches.
use mathlib.Core.List.{append-nil, append_assoc}
use dpdk_folder.Prelude.{
  ℕ, zero, suc, ◌+◌, ◌*◌, ◌≤◌, ◌<◌, ◌==◌, if◌then◌else◌, some, List, [], ◌∷◌, ◌++◌, length,
  length-append, get_elem?, get_or, ◌≡◌, refl, sym, ◌∙◌, arith, Bool-cases, inl, inr,
}
use dpdk_folder.Dpdk.{Mbuf}
use dpdk_folder.Parsing.Reader.{byte_in, be16}
use dpdk_folder.Graph.Nodes.{
  Enqueue, stream, is_ipv4, ipv4_packets, other_packets, AllFrames, Routes,
}
use dpdk_folder.Graph.PerPacket
use dpdk_folder.Graph.Batched

get_or_lem : (xs : List ℕ) (i b : ℕ) → get_elem? xs i ≡ some b → get_or xs i 0 ≡ b
get_or_lem [] i b h = cc
get_or_lem (x ∷ xs) zero b h = cc
get_or_lem (x ∷ xs) (suc i) b h = get_or_lem xs i b h

-- Both nodes read the EtherType that decides.
be16-is_ipv4 :
    (bytes : List ℕ)
    → 14 ≤ length bytes
    → (t : ℕ) × (be16 bytes 12 ≡ some t) × ((t == 0x0800) ≡ is_ipv4 bytes)
be16-is_ipv4 bytes h =
    let (a, ea) = byte_in bytes 12 (omega arith) in
    let (b, eb) = byte_in bytes 13 (omega arith) in
    (a * 256 + b, rw (ea, eb), rw (get_or_lem bytes 12 a ea, get_or_lem bytes 13 b eb))

pub enqueue_one_lem :
    (pkt : Mbuf)
    → 14 ≤ length pkt.bytes
    → PerPacket.enqueue_one pkt
      ≡ some (record { edge = if is_ipv4 pkt.bytes then 0 else 1; objs = pkt ∷ [] })
unfolding PerPacket.enqueue_one
enqueue_one_lem pkt h = let (t, e, same) = be16-is_ipv4 pkt.bytes h in rw (e, same)

cons-Routes :
    (pkt : Mbuf) (objs : List Mbuf) (qs : List Enqueue)
    → Routes objs (qs, length objs)
    → Routes (pkt ∷ objs) (
      record { edge = if is_ipv4 pkt.bytes then 0 else 1; objs = pkt ∷ [] } ∷ qs,
      suc (length objs),
    )
cons-Routes pkt objs qs r = elim (Bool-cases (is_ipv4 pkt.bytes)) [
  | inl e ↦ record {
    to_tx = rw (e, r.to_tx);
    to_drop = rw (e, r.to_drop);
    elsewhere = λ k. ground (arith, r.elsewhere k);
    handled = refl;
  }
  | inr e ↦ record {
    to_tx = rw (e, r.to_tx);
    to_drop = rw (e, r.to_drop);
    elsewhere = λ k. ground (arith, r.elsewhere k);
    handled = refl;
  }
]

enqueue_each_lem :
    (objs : List Mbuf)
    → AllFrames objs
    → (qs : List Enqueue) × (PerPacket.enqueue_each objs ≡ some qs) × Routes objs (qs, length objs)
unfolding PerPacket.enqueue_each
enqueue_each_lem [] h =
    ([], refl, record { to_tx = refl; to_drop = refl; elsewhere = λ k. refl; handled = refl })
enqueue_each_lem (pkt ∷ objs) h =
    let (qs, e, r) = enqueue_each_lem objs h.1 in
    (_, rw (enqueue_one_lem pkt h.0, e), cons-Routes pkt objs qs r)

-- On a burst of frames with an Ethernet header, the IPv4 node of graph_dpdk/main.c enqueues every IPv4
-- packet for edge 0 and every other packet for edge 1, each edge in order, nothing else, and returns their
-- number.
pub ipv4_node_process-Routes :
    (objs : List Mbuf)
    → AllFrames objs
    → (r : List Enqueue × ℕ) × (PerPacket.ipv4_node_process objs ≡ some r) × Routes objs r
unfolding PerPacket.ipv4_node_process
ipv4_node_process-Routes objs h =
    let (qs, e, r) = enqueue_each_lem objs h in ((qs, length objs), rw e, r)

store_lem :
    (pkts : List Mbuf) (pkt : Mbuf)
    → length pkts < 256
    → Batched.store pkts pkt ≡ some (pkts ++ pkt ∷ [])
unfolding Batched.store
store_lem pkts pkt h = ground arith

pub sort_each_lem :
    (objs tx drops : List Mbuf)
    → AllFrames objs
    → length tx + length objs ≤ 256
    → length drops + length objs ≤ 256
    → Batched.sort_each objs tx drops ≡ some (tx ++ ipv4_packets objs, drops ++ other_packets objs)
unfolding Batched.sort_each
sort_each_lem [] tx drops h ht hd = rw (append-nil tx, append-nil drops)
sort_each_lem (pkt ∷ objs) tx drops h ht hd =
    let (t, e, same) = be16-is_ipv4 pkt.bytes h.0 in
    let len : (xs : List Mbuf) → length (xs ++ pkt ∷ []) ≡ length xs + 1 =
      λ xs. length-append xs (pkt ∷ []) in
    elim (Bool-cases (is_ipv4 pkt.bytes)) [
      | inl v ↦ rw (
        e,
        same,
        v,
        store_lem tx pkt (omega arith),
        sort_each_lem objs (tx ++ pkt ∷ []) drops h.1 (omega (arith, len tx)) (omega arith),
        append_assoc tx (pkt ∷ []) (ipv4_packets objs),
      )
      | inr v ↦ rw (
        e,
        same,
        v,
        store_lem drops pkt (omega arith),
        sort_each_lem objs tx (drops ++ pkt ∷ []) h.1 (omega arith) (omega (arith, len drops)),
        append_assoc drops (pkt ∷ []) (other_packets objs),
      )
    ]

enqueue_some-stream :
    (tx drops : List Mbuf) (e : ℕ)
    → stream e (Batched.enqueue_some 0 tx ++ Batched.enqueue_some 1 drops)
      ≡ (if e == 0 then tx else if e == 1 then drops else [])
unfolding Batched.enqueue_some
enqueue_some-stream [] [] e = ground arith
enqueue_some-stream [] (m ∷ ms) e = ground (arith, append-nil ms)
enqueue_some-stream (m ∷ ms) [] e = ground (arith, append-nil ms)
enqueue_some-stream (m ∷ ms) (n ∷ ns) e = ground (arith, append-nil ms, append-nil ns)

-- On a burst of at most 256 frames with an Ethernet header, the IPv4 node of disable_node/main.c and of
-- 2_source_graph/main.c writes inside its two arrays, enqueues every IPv4 packet for edge 0 and every other
-- packet for edge 1, each edge in order, nothing else, and returns their number.
pub batched_ipv4_node_process-Routes :
    (objs : List Mbuf)
    → AllFrames objs
    → length objs ≤ 256
    → (r : List Enqueue × ℕ) × (Batched.ipv4_node_process objs ≡ some r) × Routes objs r
unfolding Batched.ipv4_node_process
batched_ipv4_node_process-Routes objs h fits =
    let qs =
      Batched.enqueue_some 0 (ipv4_packets objs) ++ Batched.enqueue_some 1 (other_packets objs) in
    let on = enqueue_some-stream (ipv4_packets objs) (other_packets objs) in
    (
      (qs, length objs),
      rw (sort_each_lem objs [] [] h (omega arith) (omega arith)),
      record {
        to_tx = on 0;
        to_drop = on 1;
        elsewhere = λ e. on (suc (suc e)) ∙ ground arith;
        handled = refl;
      },
    )

same_streams :
    {objs : List Mbuf} {r s : List Enqueue × ℕ} (e : ℕ)
    → Routes objs r
    → Routes objs s
    → stream e r.0 ≡ stream e s.0
same_streams zero a b = a.to_tx ∙ sym b.to_tx
same_streams (suc zero) a b = a.to_drop ∙ sym b.to_drop
same_streams (suc (suc e)) a b = a.elsewhere e ∙ sym (b.elsewhere e)

-- On a burst of at most 256 frames with an Ethernet header, the IPv4 nodes of graph_dpdk/main.c and of
-- disable_node/main.c put the same packets in the same order on every edge, and return
-- the same number, although one enqueues packet by packet and the other in two batches.
pub ipv4_nodes_agree :
    (objs : List Mbuf)
    → AllFrames objs
    → length objs ≤ 256
    → (r : List Enqueue × ℕ) × (s : List Enqueue × ℕ) × (PerPacket.ipv4_node_process objs ≡ some r)
      × (Batched.ipv4_node_process objs ≡ some s)
      × ((e : ℕ) → stream e r.0 ≡ stream e s.0)
      × (r.1 ≡ s.1)
ipv4_nodes_agree objs h fits =
    let (r, er, a) = ipv4_node_process-Routes objs h in
    let (s, es, b) = batched_ipv4_node_process-Routes objs h fits in
    (r, s, er, es, λ e. same_streams e a b, a.handled ∙ sym b.handled)

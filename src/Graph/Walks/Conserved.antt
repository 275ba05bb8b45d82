-- ===== src/Graph/Walks/Conserved.antt =====
-- No packet is lost on its way through the graph of 2_source_graph, but for those that the port does not take.
use mathlib.Core.List.{append-nil}
use dpdk_folder.Prelude.{
  ℕ, suc, ◌≤◌, ◌≡◌, ◌==◌, refl, sym, ap, arith, List, [], ◌∷◌, ◌++◌, length, some, false,
  if◌then◌else◌, ◌∙◌,
}
use dpdk_folder.Dpdk.{
  Mbuf, Driver, Trace, Outcome, trace_of, done, word_of, burst_of, tx_burst, rx_burst, machine,
}
use dpdk_folder.Dpdk.Ownership.{count, count-append, count-take-drop}
use dpdk_folder.Dpdk.Bursts.{free_all-eq-frees, frees, released-frees, received-frees}
use dpdk_folder.Graph.Nodes.{Enqueue, stream, ipv4_packets, other_packets, AllFrames}
use dpdk_folder.Graph.Routing.{batched_ipv4_node_process-Routes}
use dpdk_folder.Graph.TwoSources.{
  rx_node_process1, rx_node_process2, ipv4_node_process, tx_node_process, drop_node_process,
}
use dpdk_folder.Graph.Walks.{
  Waiting, Step, receives1, receives2, routes, sends, drops, Reachable, stays, then_steps, walking,
}
use dpdk_folder.Graph.Walks.Packets.{
  AllIpv4, Conserved, AllFrames-append, AllFrames-split, AllIpv4-append, AllIpv4-split,
  ipv4_packets-AllIpv4, count-packets, unsent-frees, frees-SendsIpv4,
}

-- What the nodes at the ends do.
stream_of_burst :
    (ms : List Mbuf)
    → stream 0 (if length ms == 0 then [] else record { edge = 0; objs = ms } ∷ []) ≡ ms
stream_of_burst [] = refl
stream_of_burst (m ∷ ms) =
    let some_packet : (suc (length ms) == 0) ≡ false = ground arith in
    rw some_packet (append-nil (m ∷ ms))

polled : Driver → Trace → List Mbuf
polled d h = d.burst (length h) (rx_burst 0 0 32)

rx_node_process1_lem :
    (d : Driver) (h h' : Trace) (qs : List Enqueue) (n : ℕ)
    → rx_node_process1 d h ≡ (done (qs, n), h')
    → (stream 0 qs ≡ polled d h) × (h' ≡ burst_of (rx_burst 0 0 32) (polled d h) ∷ h)
unfolding rx_node_process1 polled machine
rx_node_process1_lem d h h' qs n e =
    let ms = d.burst (length h) (rx_burst 0 0 32) in
    let same : (if length ms == 0 then [] else record { edge = 0; objs = ms } ∷ []) ≡ qs = cc in
    (ap (stream 0) (sym same) ∙ stream_of_burst ms, cc)

rx_node_process2_lem :
    (d : Driver) (h h' : Trace) (qs : List Enqueue) (n : ℕ)
    → rx_node_process2 d h ≡ (done (qs, n), h')
    → (stream 0 qs ≡ polled d h) × (h' ≡ burst_of (rx_burst 0 0 32) (polled d h) ∷ h)
unfolding rx_node_process2 polled machine
rx_node_process2_lem d h h' qs n e =
    let ms = d.burst (length h) (rx_burst 0 0 32) in
    let same : (if length ms == 0 then [] else record { edge = 0; objs = ms } ∷ []) ≡ qs = cc in
    (ap (stream 0) (sym same) ∙ stream_of_burst ms, cc)

-- Every buffer that is received is a frame with an Ethernet header.
abbrev pub GivesFrames : Driver → Type 0
GivesFrames d = (n : ℕ) → AllFrames (d.burst n (rx_burst 0 0 32))

-- A source adds what it has polled.
polls-Conserved :
    (d : Driver) (s : Waiting) (h : Trace) (new : List Mbuf)
    → GivesFrames d
    → new ≡ polled d s.calls
    → h ≡ burst_of (rx_burst 0 0 32) (polled d s.calls) ∷ s.calls
    → Conserved s
    → Conserved (record s { calls = h; at_ipv4 = s.at_ipv4 ++ new })
unfolding polled
polls-Conserved d s h new given e f c =
    rw (e, f)
      (record {
        frames = AllFrames-append s.at_ipv4 (polled d s.calls) c.frames (given (length s.calls));
        ipv4 = c.ipv4;
        sends_ipv4 = c.sends_ipv4;
        balance = λ a. omega (arith, c.balance a, count-append a s.at_ipv4 (polled d s.calls));
      })

routes-Conserved :
    (s : Waiting) (objs later : List Mbuf) (qs : List Enqueue) (n : ℕ)
    → s.at_ipv4 ≡ objs ++ later
    → length objs ≤ 256
    → ipv4_node_process objs ≡ some (qs, n)
    → Conserved s
    → Conserved (record s {
      at_ipv4 = later;
      at_tx = s.at_tx ++ stream 0 qs;
      at_drop = s.at_drop ++ stream 1 qs;
    })
unfolding ipv4_node_process
routes-Conserved s objs later qs n e fits runs c =
    let both : AllFrames (objs ++ later) = rw e at c.frames in
    let (first, rest) = AllFrames-split objs later both in
    let (r, runs', routed) = batched_ipv4_node_process-Routes objs first fits in
    let same : r.0 ≡ qs = cc in
    let to_tx : stream 0 qs ≡ ipv4_packets objs = ap (stream 0) (sym same) ∙ routed.to_tx in
    let to_drop : stream 1 qs ≡ other_packets objs = ap (stream 1) (sym same) ∙ routed.to_drop in
    rw (to_tx, to_drop)
      (record {
        frames = rest;
        ipv4 = AllIpv4-append s.at_tx (ipv4_packets objs) c.ipv4 (ipv4_packets-AllIpv4 objs);
        sends_ipv4 = c.sends_ipv4;
        balance = λ a. omega (
          arith,
          c.balance a,
          ap (count a) e,
          count-append a objs later,
          count-append a s.at_tx (ipv4_packets objs),
          count-append a s.at_drop (other_packets objs),
          count-packets a objs,
        );
      })

sends-Conserved :
    (d : Driver) (s : Waiting) (objs later : List Mbuf) (n : ℕ) (h : Trace)
    → s.at_tx ≡ objs ++ later
    → tx_node_process objs d s.calls ≡ (done n, h)
    → Conserved s
    → Conserved (record s { calls = h; at_tx = later })
unfolding tx_node_process machine
sends-Conserved d s objs later n h e runs c =
    let both : AllIpv4 (objs ++ later) = rw e at c.ipv4 in
    let (first, rest) = AllIpv4-split objs later both in
    let x : ℕ = d.word (length s.calls) (tx_burst 0 0 objs) in
    let after : h ≡ word_of (tx_burst 0 0 objs) x ∷ s.calls = cc in
    rw after (record {
      frames = c.frames;
      ipv4 = rest;
      sends_ipv4 = (first, c.sends_ipv4);
      balance = λ a.
          omega (
            arith,
            c.balance a,
            ap (count a) e,
            count-append a objs later,
            count-take-drop a x objs,
          );
    })

drops-Conserved :
    (d : Driver) (s : Waiting) (objs later : List Mbuf) (n : ℕ) (h : Trace)
    → s.at_drop ≡ objs ++ later
    → drop_node_process objs d s.calls ≡ (done n, h)
    → Conserved s
    → Conserved (record s { calls = h; at_drop = later })
unfolding drop_node_process machine
drops-Conserved d s objs later n h e runs c =
    let runs' : ◌≡◌ {A = Outcome ℕ × Trace} (done (length objs), frees objs s.calls) (done n, h) =
      rw (free_all-eq-frees objs d s.calls) at runs in
    let after : h ≡ frees objs s.calls = sym (ap (λ r. trace_of r) runs') in
    rw after (record {
      frames = c.frames;
      ipv4 = c.ipv4;
      sends_ipv4 = frees-SendsIpv4 objs s.calls c.sends_ipv4;
      balance = λ a. omega (
        arith,
        c.balance a,
        ap (count a) e,
        count-append a objs later,
        released-frees a objs s.calls,
        received-frees a objs s.calls,
        unsent-frees a objs s.calls,
      );
    })

Step-Conserved :
    (d : Driver) {s t : Waiting} → GivesFrames d → Step d s t → Conserved s → Conserved t
Step-Conserved d {s} given (receives1 qs n h e) c =
    let (new, after) = rx_node_process1_lem d s.calls h qs n e in
    polls-Conserved d s h (stream 0 qs) given new after c
Step-Conserved d {s} given (receives2 qs n h e) c =
    let (new, after) = rx_node_process2_lem d s.calls h qs n e in
    polls-Conserved d s h (stream 0 qs) given new after c
Step-Conserved d {s} given (routes objs later qs n e fits runs) c =
    routes-Conserved s objs later qs n e fits runs c
Step-Conserved d {s} given (sends objs later n h e runs) c =
    sends-Conserved d s objs later n h e runs c
Step-Conserved d {s} given (drops objs later n h e runs) c =
    drops-Conserved d s objs later n h e runs c

Reachable-Conserved :
    (d : Driver) {s t : Waiting} → GivesFrames d → Reachable d s t → Conserved s → Conserved t
Reachable-Conserved d given stays c = c
Reachable-Conserved d given (then_steps r step) c =
    Step-Conserved d given step (Reachable-Conserved d given r c)

-- If every received buffer is a frame with an Ethernet header: in every state that the nodes of
-- 2_source_graph reach, in whatever order and on whatever portions the graph library runs them, each buffer
-- has been received as often as it was sent or freed, was handed to the port and not taken, or
-- waits for a node; and only IPv4 packets have been handed to the port.
pub graph_walks-Conserved :
    (d : Driver) (s : Waiting) → GivesFrames d → Reachable d walking s → Conserved s
graph_walks-Conserved d s given r =
    Reachable-Conserved d given r
      (record { frames = tt; ipv4 = tt; sends_ipv4 = tt; balance = λ a. omega arith })

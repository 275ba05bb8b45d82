-- ===== src/Graph/Walks/Packets.antt =====
-- What is counted of the packets in the graph of 2_source_graph, and the condition that every step keeps.
use dpdk_folder.Prelude.{
  ℕ, ◌+◌, ◌≡◌, refl, arith, List, [], ◌∷◌, ◌++◌, true, Bool-cases, inl, inr, drop,
}
use dpdk_folder.Dpdk.{Mbuf, Trace, word_of, did, pktmbuf_free, tx_burst}
use dpdk_folder.Dpdk.Ownership.{count, received, released}
use dpdk_folder.Dpdk.Bursts.{frees}
use dpdk_folder.Graph.Nodes.{is_ipv4, ipv4_packets, other_packets, AllFrames}
use dpdk_folder.Graph.Walks.{Waiting}

-- How often a buffer was handed to rte_eth_tx_burst and not taken.
abbrev pub unsent : ℕ → Trace → ℕ
unsent a [] = 0
unsent a (word_of (tx_burst _ _ pkts) n ∷ h) = count a (drop n pkts) + unsent a h
unsent a (_ ∷ h) = unsent a h

-- All packets that were handed to rte_eth_tx_burst are IPv4.
abbrev pub AllIpv4 : List Mbuf → Type 0
AllIpv4 [] = Unit {0}
AllIpv4 (m ∷ ms) = (is_ipv4 m.bytes ≡ true) × AllIpv4 ms

abbrev pub SendsIpv4 : Trace → Type 0
SendsIpv4 [] = Unit {0}
SendsIpv4 (word_of (tx_burst _ _ pkts) n ∷ h) = AllIpv4 pkts × SendsIpv4 h
SendsIpv4 (_ ∷ h) = SendsIpv4 h

pub record Conserved (s : Waiting) : Type 0 where
  pub frames : AllFrames s.at_ipv4
  pub ipv4 : AllIpv4 s.at_tx
  pub sends_ipv4 : SendsIpv4 s.calls
  pub balance :
      (a : ℕ)
      → received a s.calls
        ≡ released a s.calls
          + unsent a s.calls
          + count a s.at_ipv4
          + count a s.at_tx
          + count a s.at_drop

pub AllFrames-append : (xs ys : List Mbuf) → AllFrames xs → AllFrames ys → AllFrames (xs ++ ys)
AllFrames-append [] ys hx hy = hy
AllFrames-append (x ∷ xs) ys hx hy = (hx.0, AllFrames-append xs ys hx.1 hy)

pub AllFrames-split : (xs ys : List Mbuf) → AllFrames (xs ++ ys) → AllFrames xs × AllFrames ys
AllFrames-split [] ys h = (tt, h)
AllFrames-split (x ∷ xs) ys h = let (hx, hy) = AllFrames-split xs ys h.1 in ((h.0, hx), hy)

pub AllIpv4-append : (xs ys : List Mbuf) → AllIpv4 xs → AllIpv4 ys → AllIpv4 (xs ++ ys)
AllIpv4-append [] ys hx hy = hy
AllIpv4-append (x ∷ xs) ys hx hy = (hx.0, AllIpv4-append xs ys hx.1 hy)

pub AllIpv4-split : (xs ys : List Mbuf) → AllIpv4 (xs ++ ys) → AllIpv4 xs × AllIpv4 ys
AllIpv4-split [] ys h = (tt, h)
AllIpv4-split (x ∷ xs) ys h = let (hx, hy) = AllIpv4-split xs ys h.1 in ((h.0, hx), hy)

pub ipv4_packets-AllIpv4 : (ms : List Mbuf) → AllIpv4 (ipv4_packets ms)
ipv4_packets-AllIpv4 [] = tt
ipv4_packets-AllIpv4 (m ∷ ms) = elim (Bool-cases (is_ipv4 m.bytes)) [
  | inl e ↦ rw e (e, ipv4_packets-AllIpv4 ms)
  | inr e ↦ rw e (ipv4_packets-AllIpv4 ms)
]

pub count-packets :
    (a : ℕ) (ms : List Mbuf) → count a (ipv4_packets ms) + count a (other_packets ms) ≡ count a ms
count-packets a [] = omega arith
count-packets a (m ∷ ms) = elim (Bool-cases (is_ipv4 m.bytes)) [
  | inl e ↦ rw e (omega (arith, count-packets a ms))
  | inr e ↦ rw e (omega (arith, count-packets a ms))
]

pub unsent-frees : (a : ℕ) (ms : List Mbuf) (h : Trace) → unsent a (frees ms h) ≡ unsent a h
unsent-frees a [] h = refl
unsent-frees a (m ∷ ms) h = unsent-frees a ms (did (pktmbuf_free m) ∷ h)

pub frees-SendsIpv4 : (ms : List Mbuf) (h : Trace) → SendsIpv4 h → SendsIpv4 (frees ms h)
frees-SendsIpv4 [] h ok = ok
frees-SendsIpv4 (m ∷ ms) h ok = frees-SendsIpv4 ms (did (pktmbuf_free m) ∷ h) ok

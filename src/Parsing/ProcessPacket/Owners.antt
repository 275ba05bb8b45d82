-- ===== src/Parsing/ProcessPacket/Owners.antt =====
-- Who owns the packets of `process_packet`.
use dpdk_folder.Prelude.{
  ℕ, ◌+◌, ◌*◌, ltb, ltb→le, ◌==◌, List, [], ◌∷◌, length, drop, drop_all, ◌≡◌, refl, ◌∙◌, arith, map,
  Bool-cases, inl, inr, false,
}
use dpdk_folder.Dpdk.{
  Mbuf, Driver, Trace, burst_of, word_of, did, rx_burst, tx_burst, pktmbuf_free, done, trace_of,
  machine,
}
use dpdk_folder.Dpdk.Ownership.{count, received, released, count-take-drop}
use dpdk_folder.Dpdk.Bursts.{frees, free_all-eq-frees, released-frees, received-frees}
use dpdk_folder.Parsing.PacketProcess.{print_mbuf_data}
use dpdk_folder.Parsing.ProcessPacket.{print_and_free, process_packet}

print_and_free-eq-frees :
    (ms : List Mbuf) (d : Driver) (h : Trace)
    → print_and_free ms d h ≡ (done (map (λ m. print_mbuf_data m.bytes) ms), frees ms h)
unfolding print_and_free machine
print_and_free-eq-frees [] d h = refl
print_and_free-eq-frees (m ∷ ms) d h = rw (print_and_free-eq-frees ms d (did (pktmbuf_free m) ∷ h))

module _ (d : Driver) (h : Trace) (port : ℕ) where
  -- The burst, and how much of it is sent.
  abbrev burst : List Mbuf
  burst = d.burst (length h) (rx_burst port 0 32)

  abbrev after_frees : Trace
  after_frees = frees burst (burst_of (rx_burst port 0 32) burst ∷ h)

  abbrev sent : ℕ
  sent = d.word (length after_frees) (tx_burst port 0 burst)

  abbrev after_tx : Trace
  after_tx = word_of (tx_burst port 0 burst) sent ∷ after_frees

  process_packet-trace :
      (length burst == 0) ≡ false
      → trace_of (process_packet port d h) ≡ frees (drop sent burst) after_tx
  unfolding process_packet machine
  process_packet-trace ne =
      rw (ne, print_and_free-eq-frees burst d _)
        (elim (Bool-cases (ltb sent (length burst))) [
          | inl e ↦ rw (e, free_all-eq-frees (drop sent burst) d after_tx)
          | inr e ↦ rw (e, drop_all sent burst (ltb→le _ _ e))
        ])

  -- `process_packet` gives every buffer of a burst that is not empty back twice: once when it has printed
  -- it, and once more to `rte_eth_tx_burst` or, where that did not take it, to `rte_pktmbuf_free`.
  pub process_packet_releases_twice :
      (a : ℕ)
      → (length burst == 0) ≡ false
      → (received a (trace_of (process_packet port d h)) ≡ count a burst + received a h)
        × (released a (trace_of (process_packet port d h)) ≡ 2 * count a burst + released a h)
  process_packet_releases_twice a ne = rw (process_packet-trace ne) (
    received-frees a (drop sent burst) after_tx ∙ received-frees a burst _,
    omega (
      arith,
      released-frees a (drop sent burst) after_tx,
      released-frees a burst (burst_of (rx_burst port 0 32) burst ∷ h),
      count-take-drop a sent burst,
    ),
  )

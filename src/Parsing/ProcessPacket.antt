-- ===== src/Parsing/ProcessPacket.antt =====
-- packet_parsing/packet_process.c: `process_packet`, a burst from receive to transmit. The prints of
-- a packet come back as values; `print_mbuff_info` also shows metadata (Parsing/MbufInfo.antt).
pub mod Owners
use dpdk_folder.Prelude.{ℕ, ◌==◌, ltb, if◌then◌else◌, Option, List, [], ◌∷◌, length, drop}
use dpdk_folder.Dpdk.{
  Mbuf, rx_burst, tx_burst, pktmbuf_free, M, ◌>>=◌, ◌>>◌, pure, ask_burst, ask_word, run,
}
use dpdk_folder.Dpdk.Bursts.{free_all}
use dpdk_folder.Parsing.Reader.{Line}
use dpdk_folder.Parsing.PacketProcess.{print_mbuf_data}

abbrev pub burst_size : ℕ
burst_size = 32

-- The first loop: each packet is printed and freed.
unfoldable pub print_and_free : List Mbuf → M (List (Option (List Line)))
print_and_free [] = pure []
print_and_free (m ∷ ms) = do
  let lines = print_mbuf_data m.bytes
  run (pktmbuf_free m)
  rest ← print_and_free ms
  pure (lines ∷ rest)

-- The packets that `rte_eth_tx_burst` did not take are freed.
unfoldable pub process_packet : (port_id : ℕ) → M (List (Option (List Line)))
process_packet port_id = do
  rx_pkts ← ask_burst (rx_burst port_id 0 burst_size)
  let nb_rx = length rx_pkts
  if nb_rx == 0 then pure [] else (do
    printed ← print_and_free rx_pkts
    nb_tx ← ask_word (tx_burst port_id 0 rx_pkts)
    if ltb nb_tx nb_rx then free_all (drop nb_tx rx_pkts) else pure tt
    pure printed)

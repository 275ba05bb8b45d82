-- ===== src/Vhost/Programs.antt =====
-- The mains. The results of the calls that set the port up are ignored, and so is a failed allocation.
use dpdk_folder.Prelude.{ℕ, ℤ, pos, ◌==◌, is_neg, if◌then◌else◌, List, [], ◌∷◌}
use dpdk_folder.Dpdk.{
  Mbuf, M, ◌>>=◌, ◌>>◌, pure, function, exit_if, ask_int, ask_word, ask_burst, run, eal_init,
  pool_create, dev_configure, rx_queue_setup, tx_queue_setup, dev_start, pktmbuf_alloc,
  pktmbuf_free, rx_burst, tx_burst, print,
}
use dpdk_folder.Dpdk.Loops.{forever}

-- The Ethernet header that is written to the packet: `dst`, `src` and RTE_ETHER_TYPE_IPV4.
abbrev pub eth : List ℕ
eth = 255 ∷ 255 ∷ 255 ∷ 255 ∷ 255 ∷ 255 ∷ 2 ∷ 0 ∷ 0 ∷ 0 ∷ 0 ∷ 1 ∷ 8 ∷ 0 ∷ []

-- The header's bytes are stored through the buffer's pointer. A store through NULL ends the process.
unfoldable pub store_eth : (m : ℕ) → M (Unit {0})
store_eth m = exit_if (m == 0)

unfoldable pub tx_main : M ℤ
tx_main = function do
  ret ← ask_int eal_init
  exit_if (is_neg ret)
  mbuf_pool ← ask_word (pool_create "VIRTIO_POOL" 512 0)
  exit_if (mbuf_pool == 0)
  configured ← ask_int (dev_configure 0 0 1)
  tx ← ask_int (tx_queue_setup 0 0 64)
  started ← ask_int (dev_start 0)
  m ← ask_word (pktmbuf_alloc mbuf_pool)
  store_eth m
  sent ← ask_word (tx_burst 0 0 (record { addr = m; bytes = eth } ∷ []))
  if sent == 1 then run (print "virtio-user: Packet SENT" []) else (do
    run (print "virtio-user: TX failed" [])
    run (pktmbuf_free (record { addr = m; bytes = eth })))
  pure (pos 0)

-- `if (rte_eth_rx_burst(port_id, 0, &mbuf, 1))`, with room for one packet.
abbrev pub consume : List Mbuf → M (Unit {0})
consume [] = pure tt
consume (mbuf ∷ _) = do run (print "Packet received at backend" []); run (pktmbuf_free mbuf)

unfoldable pub vhost_round : M (Unit {0})
vhost_round = ask_burst (rx_burst 0 0 1) >>= consume

unfoldable pub vhost_main : (rounds : ℕ) → M ℤ
vhost_main rounds = function do
  ret ← ask_int eal_init
  exit_if (is_neg ret)
  mbuf_pool ← ask_word (pool_create "VHOST_POOL" 1024 0)
  exit_if (mbuf_pool == 0)
  configured ← ask_int (dev_configure 0 1 1)
  rx ← ask_int (rx_queue_setup 0 0 64 mbuf_pool)
  tx ← ask_int (tx_queue_setup 0 0 64)
  started ← ask_int (dev_start 0)
  forever rounds vhost_round
  pure (pos 0)

-- ===== src/Ports/Initialize.antt =====
-- packet_parsing/port_init.c: `initialize_port`, with its loops over RX_QUEUE and TX_QUEUE, and
-- packet_parsing/mem_pool.c: `create_pool`.
pub mod Order
use dpdk_folder.Prelude.{ℕ, ◌==◌, ℤ, pos, negsuc, is_neg, is_zero}
use dpdk_folder.Ports.Queues.{for_queues}
use dpdk_folder.Dpdk.{
  M, ◌>>=◌, ◌>>◌, pure, return_if, exit_if, function, ask_int, ask_word, is_valid_port,
  dev_configure, rx_queue_setup, tx_queue_setup, dev_info_get, dev_start, promiscuous_enable,
  macaddr_get, pool_create,
}

unfoldable pub create_pool : M ℕ
create_pool = do
  mem_pool ← ask_word (pool_create "MEM_POOL" 8192 250)
  exit_if (mem_pool == 0)
  pure mem_pool

abbrev pub rx_queue : ℕ
rx_queue = 1

abbrev pub tx_queue : ℕ
tx_queue = 1

unfoldable pub initialize_port : (port_id mbuf_pool : ℕ) → M ℤ
initialize_port port_id mbuf_pool = function do
  valid ← ask_int (is_valid_port port_id)
  return_if (is_zero valid) (negsuc 0)
  configured ← ask_int (dev_configure port_id 1 1)
  return_if (is_neg configured) configured
  for_queues (λ i. rx_queue_setup port_id i 1024 mbuf_pool) rx_queue 0
  for_queues (λ i. tx_queue_setup port_id i 1024) tx_queue 0
  info ← ask_int (dev_info_get 0)
  return_if (is_neg info) (pos 1)
  started ← ask_int (dev_start port_id)
  return_if (is_neg started) started
  ask_int (promiscuous_enable port_id)
  ask_int (macaddr_get port_id)
  pure (pos 0)

-- ===== src/Ports/EventPort.antt =====
-- eventdev_packet_parsing/port.c: `port_init` creates the pool itself and works on port 0.
pub mod Order
use dpdk_folder.Prelude.{ℕ, ℤ, pos, is_neg, ◌==◌}
use dpdk_folder.Dpdk.{
  M, ◌>>=◌, ◌>>◌, pure, return_if, function, ask_int, ask_word, pool_create, dev_configure,
  rx_queue_setup, tx_queue_setup, dev_start,
}

unfoldable pub port_init : M ℤ
port_init = function do
  mem_pool ← ask_word (pool_create "MEM_POOL" 8192 256)
  return_if (mem_pool == 0) (pos 1)
  configured ← ask_int (dev_configure 0 1 1)
  return_if (is_neg configured) (pos 1)
  rx ← ask_int (rx_queue_setup 0 0 1024 mem_pool)
  return_if (is_neg rx) (pos 1)
  tx ← ask_int (tx_queue_setup 0 0 1024)
  return_if (is_neg tx) (pos 1)
  started ← ask_int (dev_start 0)
  return_if (is_neg started) (pos 1)
  pure (pos 0)

-- ===== src/Ports/PortInit2.antt =====
-- port_init2/port.c.
pub mod Order
use dpdk_folder.Prelude.{ℕ, ℤ, pos, negsuc, is_neg, is_zero}
use dpdk_folder.Dpdk.{
  M, ◌>>=◌, ◌>>◌, pure, return_if, function, ask_int, is_valid_port, dev_configure, rx_queue_setup,
  tx_queue_setup, dev_start, promiscuous_enable, macaddr_get,
}

unfoldable pub port_init : (port_id mbuf_pool : ℕ) → M ℤ
port_init port_id mbuf_pool = function do
  let rx_queues : ℕ = 1
  let tx_queues : ℕ = 1
  valid ← ask_int (is_valid_port port_id)
  return_if (is_zero valid) (negsuc 0)
  configured ← ask_int (dev_configure port_id rx_queues tx_queues)
  return_if (is_neg configured) configured
  rx ← ask_int (rx_queue_setup port_id 0 1024 mbuf_pool)
  return_if (is_neg rx) rx
  tx ← ask_int (tx_queue_setup port_id 0 1024)
  return_if (is_neg tx) tx
  started ← ask_int (dev_start port_id)
  return_if (is_neg started) started
  ask_int (promiscuous_enable port_id)
  ask_int (macaddr_get port_id)
  pure (pos 0)

-- ===== src/Ports/Notes.antt =====
-- port_init/notes.c, an annotated version of port_init.c that the makefile does not build.
use dpdk_folder.Prelude.{ℕ, ℤ, pos, negsuc, is_neg, is_zero, ◌==◌}
use dpdk_folder.Dpdk.{
  M, ◌>>=◌, ◌>>◌, pure, return_if, exit_if, function, ask_int, ask_word, eal_init, pool_create,
  is_valid_port, dev_configure, rx_queue_setup, tx_queue_setup, dev_start, promiscuous_enable,
  find_next_port,
}
use dpdk_folder.Ports.Queues.{for_queues}
use dpdk_folder.Ports.Each.{init_or_exit}
pub mod Up

unfoldable pub port_init : (port_id mbuf_pool : ℕ) → M ℤ
port_init port_id mbuf_pool = function do
  let rx_queues : ℕ = 1
  let tx_queues : ℕ = 1
  valid ← ask_int (is_valid_port port_id)
  return_if (is_zero valid) (negsuc 0)
  configured ← ask_int (dev_configure port_id rx_queues tx_queues)
  return_if (is_neg configured) configured
  for_queues (λ q. rx_queue_setup port_id q 1024 mbuf_pool) rx_queues 0
  for_queues (λ q. tx_queue_setup port_id q 1024) tx_queues 0
  started ← ask_int (dev_start port_id)
  return_if (is_neg started) started
  ask_int (promiscuous_enable port_id)
  pure (pos 0)

unfoldable pub main : (rounds : ℕ) → M ℤ
main rounds = function do
  ret ← ask_int eal_init
  exit_if (is_neg ret)
  mbuf_pool ← ask_word (pool_create "MBUF_POOL" 8192 250)
  exit_if (mbuf_pool == 0)
  port_id ← ask_word (find_next_port 0)
  init_or_exit port_init rounds mbuf_pool port_id
  pure (pos 0)

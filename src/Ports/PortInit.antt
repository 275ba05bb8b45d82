-- ===== src/Ports/PortInit.antt =====
-- port_init/port_init.c: `port_init`, and the `main` that runs it on every port.
pub mod Order
pub mod AllPorts
use dpdk_folder.Prelude.{
  ℕ, zero, suc, ◌+◌, ℤ, pos, negsuc, is_neg, is_zero, not, ltb, ◌==◌, if◌then◌else◌,
}
use dpdk_folder.Ports.Queues.{for_queues}
use dpdk_folder.Ports.Each.{max_ethports}
use dpdk_folder.Dpdk.{
  M, ◌>>=◌, ◌>>◌, pure, return_if, function, still_running, ask_int, ask_word, eal_init,
  pool_create, dev_count_avail, is_valid_port, dev_configure, rx_queue_setup, tx_queue_setup,
  dev_start, macaddr_get, promiscuous_enable, find_next_port,
}

abbrev pub rx_ring_size : ℕ
rx_ring_size = 1024

abbrev pub tx_ring_size : ℕ
tx_ring_size = 1024

unfoldable pub port_init : (port_id m_pool : ℕ) → M ℤ
port_init port_id m_pool = function do
  let rx_queue : ℕ = 1
  let tx_queue : ℕ = 1
  valid ← ask_int (is_valid_port port_id)
  return_if (is_zero valid) (negsuc 0)
  configured ← ask_int (dev_configure port_id rx_queue tx_queue)
  return_if (is_neg configured) configured
  for_queues (λ q. rx_queue_setup port_id q rx_ring_size m_pool) rx_queue 0
  for_queues (λ q. tx_queue_setup port_id q tx_ring_size) tx_queue 0
  started ← ask_int (dev_start port_id)
  return_if (not (is_zero started)) started
  mac ← ask_int (macaddr_get port_id)
  return_if (not (is_zero mac)) mac
  ask_int (promiscuous_enable port_id)
  pure (pos 0)

-- RTE_ETH_FOREACH_DEV and its body. `port_id` is what `rte_eth_find_next_owned_by` returned.
unfoldable pub init_ports : (rounds m_pool port_id : ℕ) → M (Unit {0})
init_ports zero m_pool port_id = still_running
init_ports (suc rounds) m_pool port_id =
    if ltb port_id max_ethports
    then (do
      ret ← port_init port_id m_pool
      return_if (not (is_zero ret)) (pos 1)
      next ← ask_word (find_next_port (port_id + 1))
      init_ports rounds m_pool next)
    else pure tt

unfoldable pub main : (rounds : ℕ) → M ℤ
main rounds = function do
  ret ← ask_int eal_init
  return_if (is_neg ret) (pos 1)
  m_pool ← ask_word (pool_create "MEM_POOL" 8192 250)
  return_if (m_pool == 0) (pos 1)
  ask_word dev_count_avail
  port_id ← ask_word (find_next_port 0)
  init_ports rounds m_pool port_id
  pure (pos 0)

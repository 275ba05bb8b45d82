-- ===== src/Ports/Each.antt =====
-- RTE_ETH_FOREACH_DEV with a body that initialises the port or exits, in several mains.
use dpdk_folder.Prelude.{ℕ, zero, suc, ◌+◌, ℤ, is_zero, not, ltb, if◌then◌else◌}
use dpdk_folder.Dpdk.{M, ◌>>=◌, ◌>>◌, pure, exit_if, ask_word, still_running, find_next_port}
pub mod Rounds
pub mod Listed

-- RTE_MAX_ETHPORTS
abbrev pub max_ethports : ℕ
max_ethports = 32

-- `port_id` is what `rte_eth_find_next_owned_by` returned.
unfoldable pub init_or_exit :
    (port_init : ℕ → ℕ → M ℤ) (rounds mbuf_pool port_id : ℕ) → M (Unit {0})
init_or_exit port_init zero mbuf_pool port_id = still_running
init_or_exit port_init (suc rounds) mbuf_pool port_id =
    if ltb port_id max_ethports
    then (do
      ret ← port_init port_id mbuf_pool
      exit_if (not (is_zero ret))
      next ← ask_word (find_next_port (port_id + 1))
      init_or_exit port_init rounds mbuf_pool next)
    else pure tt

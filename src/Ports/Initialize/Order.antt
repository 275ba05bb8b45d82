-- ===== src/Ports/Initialize/Order.antt =====
-- `initialize_port` of packet_parsing/port_init.c keeps its promise.
use dpdk_folder.Prelude.{ℕ, ◌≢◌, refl, arith, ==_refl}
use dpdk_folder.Dpdk.{Driver, Trace}
use dpdk_folder.Dpdk.Lifecycle.{ethdev, fresh_port}
use dpdk_folder.Dpdk.Rules
use dpdk_folder.Dpdk.Rules.{At, Ends, Triple}
use dpdk_folder.Ports.Contract.{BringsUpOrNot}
use dpdk_folder.Ports.Initialize.{initialize_port}
use dpdk_folder.Ports.Queues.{rx_queues-Triple, tx_queues-Triple, then_queues-Triple}

initialize_port-Triple :
    (d : Driver) (p m : ℕ)
    → m ≢ 0
    → Triple d (ethdev p) fresh_port (initialize_port p m) BringsUpOrNot
unfolding initialize_port
initialize_port-Triple d p m pool = Rules.function-Triple _ (
    Rules.ask_int_other-Triple _ _ refl λ valid.
      Rules.return_if-Triple _ _ _ (λ e. ground arith)
        λ e.
          Rules.ask_or_return-Triple _ _ _ (==_refl p) refl (λ x n. ground arith)
            λ x.
              then_queues-Triple p _ _
                (rx_queues-Triple d p m 1024 1 0 _ pool refl refl (omega arith))
                (λ x s n st. ground arith)
                (then_queues-Triple p _ _ (tx_queues-Triple d p 1024 1 0 _ refl refl (omega arith))
                  (λ x s n st. ground arith)
                  (Rules.ask_int_other-Triple _ _ refl λ info.
                    Rules.return_if-Triple _ _ _ (λ e. ground arith)
                      λ e.
                        Rules.ask_or_return-Triple _ _ _ (==_refl p) (refl, refl, refl)
                          (λ x n. ground arith)
                          λ x. Rules.then_int_other-Triple _ _ refl (
                            Rules.then_int_other-Triple _ _ refl
                              (Rules.pure-Triple _ (ground arith))))))

-- Called on a port that is untouched and with a pool that exists, `initialize_port` returns for every
-- driver, makes its calls in the order that ethdev asks for, and returns 0 when the port is ready and
-- something else when it does not run.
pub initialize_port-BringsUpOrNot :
    (d : Driver) (h : Trace) (port_id mbuf_pool : ℕ)
    → mbuf_pool ≢ 0
    → At (ethdev port_id) fresh_port h
    → Ends (ethdev port_id) BringsUpOrNot (initialize_port port_id mbuf_pool d h)
initialize_port-BringsUpOrNot d h p m pool at = (initialize_port-Triple d p m pool).run h at

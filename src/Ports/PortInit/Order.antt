-- ===== src/Ports/PortInit/Order.antt =====
-- `port_init` of port_init/port_init.c keeps its promise.
use dpdk_folder.Prelude.{ℕ, ◌≢◌, refl, arith, ==_refl}
use dpdk_folder.Dpdk.{Driver, Trace}
use dpdk_folder.Dpdk.Lifecycle.{ethdev, fresh_port}
use dpdk_folder.Dpdk.Rules
use dpdk_folder.Dpdk.Rules.{At, Ends, Triple}
use dpdk_folder.Ports.Contract.{BringsUp}
use dpdk_folder.Ports.PortInit.{port_init}
use dpdk_folder.Ports.Queues.{rx_queues-Triple, tx_queues-Triple, then_queues-Triple}

pub port_init-Triple :
    (d : Driver) (p m : ℕ) → m ≢ 0 → Triple d (ethdev p) fresh_port (port_init p m) BringsUp
unfolding port_init
port_init-Triple d p m pool = Rules.function-Triple _ (
    Rules.ask_int_other-Triple _ _ refl λ valid.
      Rules.return_if-Triple _ _ _ (λ e. ground arith)
        λ e.
          Rules.ask_or_return-Triple _ _ _ (==_refl p) refl (λ x n. ground arith)
            λ x.
              then_queues-Triple p _ _
                (rx_queues-Triple d p m 1024 1 0 _ pool refl refl (omega arith))
                (λ x s n st. ground arith)
                (then_queues-Triple p _ _ (tx_queues-Triple d p 1024 1 0 _ refl refl (omega arith))
                  (λ x s n st. ground arith)
                  (Rules.ask_int-Triple _ _ (==_refl p) (refl, refl, refl)
                    λ started.
                      Rules.return_if-Triple _ _ _ (λ e. ground arith)
                        λ e. Rules.ask_int_other-Triple _ _ refl λ mac.
                          Rules.return_if-Triple _ _ _ (λ e'. ground arith)
                            λ e'.
                              Rules.then_int_other-Triple _ _ refl
                                (Rules.pure-Triple _ (ground arith)))))

-- Called on a port that is untouched and with a pool that exists, `port_init` returns for every driver,
-- makes its calls in the order that ethdev asks for, and returns 0 only when the port is ready.
pub port_init-BringsUp :
    (d : Driver) (h : Trace) (port_id m_pool : ℕ)
    → m_pool ≢ 0
    → At (ethdev port_id) fresh_port h
    → Ends (ethdev port_id) BringsUp (port_init port_id m_pool d h)
port_init-BringsUp d h p m pool at = (port_init-Triple d p m pool).run h at

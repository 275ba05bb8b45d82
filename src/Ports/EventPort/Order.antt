-- ===== src/Ports/EventPort/Order.antt =====
-- `port_init` of eventdev_packet_parsing/port.c keeps its promise.
use dpdk_folder.Prelude.{refl, arith}
use dpdk_folder.Dpdk.{Driver, Trace}
use dpdk_folder.Dpdk.Lifecycle.{ethdev, fresh_port}
use dpdk_folder.Dpdk.Rules
use dpdk_folder.Dpdk.Rules.{At, Ends, Triple}
use dpdk_folder.Ports.Contract.{BringsUpOrNot}
use dpdk_folder.Ports.EventPort.{port_init}

port_init-Triple : (d : Driver) → Triple d (ethdev 0) fresh_port port_init BringsUpOrNot
unfolding port_init
port_init-Triple d = Rules.function-Triple _ (
    Rules.ask_word-Triple _ _ refl λ pool.
      Rules.return_if-Triple _ _ _ (λ e. ground arith)
        λ e.
          Rules.ask_or_return-Triple _ _ _ refl refl (λ x n. ground arith)
            λ x.
              Rules.ask_or_return-Triple _ _ _ refl (refl, refl, omega arith, ground arith)
                (λ x n. ground arith)
                λ x.
                  Rules.ask_or_return-Triple _ _ _ refl (refl, refl, omega arith)
                    (λ x n. ground arith)
                    λ x.
                      Rules.ask_or_return-Triple _ _ _ refl (refl, refl, refl) (λ x n. ground arith)
                        λ x. Rules.pure-Triple _ (ground arith))

-- On an untouched port 0, `port_init` returns for every driver, makes its calls in the order that
-- ethdev asks for, and returns 0 when the port is ready and something else when it does not run.
pub event_port_init-BringsUpOrNot :
    (d : Driver) (h : Trace)
    → At (ethdev 0) fresh_port h
    → Ends (ethdev 0) BringsUpOrNot (port_init d h)
event_port_init-BringsUpOrNot d h at = (port_init-Triple d).run h at

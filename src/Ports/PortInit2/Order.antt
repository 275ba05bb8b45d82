-- ===== src/Ports/PortInit2/Order.antt =====
-- `port_init` of port_init2/port.c keeps its promise.
use dpdk_folder.Prelude.{ℕ, ◌≢◌, refl, arith, ==_refl}
use dpdk_folder.Dpdk.{Driver, Trace}
use dpdk_folder.Dpdk.Lifecycle.{ethdev, fresh_port}
use dpdk_folder.Dpdk.Rules
use dpdk_folder.Dpdk.Rules.{At, Ends, Triple}
use dpdk_folder.Ports.Contract.{BringsUpOrNot}
use dpdk_folder.Ports.PortInit2.{port_init}

pub port_init-Triple :
    (d : Driver) (p m : ℕ) → m ≢ 0 → Triple d (ethdev p) fresh_port (port_init p m) BringsUpOrNot
unfolding port_init
port_init-Triple d p m pool = Rules.function-Triple _ (
    Rules.ask_int_other-Triple _ _ refl λ valid.
      Rules.return_if-Triple _ _ _ (λ e. ground arith)
        λ e.
          Rules.ask_or_return-Triple _ _ _ (==_refl p) refl (λ x n. ground arith)
            λ x.
              Rules.ask_or_return-Triple _ _ _ (==_refl p) (refl, refl, omega arith, pool)
                (λ x n. ground arith)
                λ x.
                  Rules.ask_or_return-Triple _ _ _ (==_refl p) (refl, refl, omega arith)
                    (λ x n. ground arith)
                    λ x.
                      Rules.ask_or_return-Triple _ _ _ (==_refl p) (refl, refl, refl)
                        (λ x n. ground arith)
                        λ x. Rules.then_int_other-Triple _ _ refl (
                          Rules.then_int_other-Triple _ _ refl
                            (Rules.pure-Triple _ (ground arith))))

-- Called on a port that is untouched and with a pool that exists, `port_init` returns for every
-- driver, makes its calls in the order that ethdev asks for, and returns 0 when the port is ready and
-- something else when it does not run.
pub port_init2-BringsUpOrNot :
    (d : Driver) (h : Trace) (port_id mbuf_pool : ℕ)
    → mbuf_pool ≢ 0
    → At (ethdev port_id) fresh_port h
    → Ends (ethdev port_id) BringsUpOrNot (port_init port_id mbuf_pool d h)
port_init2-BringsUpOrNot d h p m pool at = (port_init-Triple d p m pool).run h at

-- ===== src/Prefetch/Program.antt =====
-- `port_init` and main of prefetch/main.c.
use dpdk_folder.Prelude.{
  ℕ, ℤ, pos, negsuc, is_neg, is_zero, not, ◌==◌, ◌≢◌, refl, arith, ==_refl, zero, suc, ◌<◌, ◌≡◌,
  true, length, Bool-cases, ap, eq_of_not-is_zero, [], inl, inr,
}
use dpdk_folder.Dpdk.{
  M, Driver, Trace, ◌>>=◌, ◌>>◌, pure, return_if, exit_if, function, ask_int, ask_word, eal_init,
  dev_count_avail, pool_create, is_valid_port, dev_configure, rx_queue_setup, tx_queue_setup,
  dev_start, promiscuous_enable, rx_burst, Outcome, done, returned, exited, running,
}
use dpdk_folder.Dpdk.Bursts.{free_all-Triple}
use dpdk_folder.Dpdk.Lifecycle.{ethdev, PortState, fresh_port}
use dpdk_folder.Dpdk.Rules
use dpdk_folder.Dpdk.Rules.{At, Ends, Triple}
use dpdk_folder.Ports.Contract.{BringsUpOrNot}
use dpdk_folder.Prefetch.Loop.{lcore_main, rx_rounds}
use dpdk_folder.Prefetch.Rate.{Counter}

unfoldable pub port_init : (port mp : ℕ) → M ℤ
port_init port mp = function do
  let rx_rings : ℕ = 1
  let tx_rings : ℕ = 1
  valid ← ask_int (is_valid_port port)
  return_if (is_zero valid) (negsuc 0)
  configured ← ask_int (dev_configure port rx_rings tx_rings)
  return_if (is_neg configured) configured
  rx ← ask_int (rx_queue_setup port 0 1024 mp)
  return_if (is_neg rx) rx
  tx ← ask_int (tx_queue_setup port 0 1024)
  return_if (is_neg tx) tx
  started ← ask_int (dev_start port)
  return_if (is_neg started) started
  ask_int (promiscuous_enable port)
  pure (pos 0)

unfoldable pub main : (rounds : ℕ) → M ℤ
main rounds = function do
  ret ← ask_int eal_init
  exit_if (is_neg ret)
  ports ← ask_word dev_count_avail
  exit_if (ports == 0)
  mbuf_pool ← ask_word (pool_create "MBUF_POOL" 8192 250)
  exit_if (mbuf_pool == 0)
  initialised ← port_init 0 mbuf_pool
  exit_if (not (is_zero initialised))
  lcore_main 0 rounds
  pure (pos 0)

port_init-Triple :
    (d : Driver) (p m : ℕ) → m ≢ 0 → Triple d (ethdev p) fresh_port (port_init p m) BringsUpOrNot
unfolding port_init
port_init-Triple d p m pool = Rules.function-Triple _ (
    Rules.ask_int_other-Triple _ _ refl λ valid.
      Rules.return_if-Triple _ _ _ (λ e. ground arith)
        λ e.
          Rules.ask_or_return-Triple _ _ _ (==_refl p) refl (λ x n. ground arith)
            λ x.
              Rules.ask_or_return-Triple _ _ _ (==_refl p) (refl, refl, omega arith, pool)
                (λ x n. ground arith)
                λ x.
                  Rules.ask_or_return-Triple _ _ _ (==_refl p) (refl, refl, omega arith)
                    (λ x n. ground arith)
                    λ x.
                      Rules.ask_or_return-Triple _ _ _ (==_refl p) (refl, refl, refl)
                        (λ x n. ground arith)
                        λ x.
                          Rules.then_int_other-Triple _ _ refl (Rules.pure-Triple _ (ground arith)))

-- On an untouched port and with a pool that exists, `port_init` of prefetch/main.c returns for every
-- driver, makes its calls in the order that ethdev asks for, and returns 0 when the port is ready and
-- something else when it does not run.
pub prefetch_port_init-BringsUpOrNot :
    (d : Driver) (h : Trace) (port mp : ℕ)
    → mp ≢ 0
    → At (ethdev port) fresh_port h
    → Ends (ethdev port) BringsUpOrNot (port_init port mp d h)
prefetch_port_init-BringsUpOrNot d h p m pool at = (port_init-Triple d p m pool).run h at

-- The code runs on for ever and the port stays as it is.
abbrev Continues : {A : Type 0} → PortState → Outcome A → PortState → Type 0
Continues s running s' = s' ≡ s
Continues s (done _) s' = ⊥
Continues s (returned _) s' = ⊥
Continues s exited s' = ⊥

rx_rounds-Triple :
    (d : Driver) (p hz rounds : ℕ) (c : Counter) (s : PortState)
    → s.started ≡ true
    → 0 < s.nb_rx
    → Triple d (ethdev p) s (rx_rounds p hz rounds c) (Continues s)
unfolding rx_rounds
rx_rounds-Triple d p hz zero c s up queue = Rules.still_running-Triple refl
rx_rounds-Triple d p hz (suc rounds) c s up queue =
    Rules.ask_burst-Triple _ _ (up, queue)
      λ n.
        let bufs = d.burst n (rx_burst p 0 32) in
        elim (Bool-cases (length bufs == 0)) [
          | inl e ↦ rw e (rx_rounds-Triple d p hz rounds c s up queue)
          | inr e ↦ rw e (
              Rules.then_completes-Triple _ _ (free_all-Triple d (ethdev p) s bufs (λ m. refl))
                (Rules.ask_word-Triple _ _ refl λ m. rx_rounds-Triple d p hz rounds _ s up queue))
        ]

lcore_main-Triple :
    (d : Driver) (p rounds : ℕ) (s : PortState)
    → s.started ≡ true
    → 0 < s.nb_rx
    → Triple d (ethdev p) s (lcore_main p rounds) (Continues s)
unfolding lcore_main
lcore_main-Triple d p rounds s up queue =
    Rules.ask_word-Triple _ _ refl
      λ n. Rules.ask_word-Triple _ _ refl λ m. rx_rounds-Triple d p _ rounds _ s up queue

-- The process is in its loop on a running port, or has left by `rte_exit`.
abbrev pub Serves : Outcome ℤ → PortState → Type 0
Serves running s = s.started ≡ true
Serves exited s = Unit {0}
Serves (done _) s = ⊥
Serves (returned _) s = ⊥

main-Triple : (d : Driver) (rounds : ℕ) → Triple d (ethdev 0) fresh_port (main rounds) Serves
unfolding main
main-Triple d rounds = Rules.function-Triple _ (
    Rules.ask_int_other-Triple _ _ refl λ n.
      Rules.exit_if-Triple _ _ (λ e. tt)
        λ e. Rules.ask_word-Triple _ _ refl λ n.
          Rules.exit_if-Triple _ _ (λ e. tt)
            λ e. Rules.ask_word-Triple _ _ refl λ m.
              Rules.exit_if-Triple _ _ (λ e. tt)
                λ e.
                  Rules.bind-Triple _ _ (port_init-Triple d 0 _ (ground arith)) (λ x s' b. cc)
                    (λ s' b. cc) (λ s' b. cc)
                    λ x s' b.
                      Rules.exit_if-Triple _ _ (λ e. tt)
                        λ e.
                          let ready = b.ready (ap done (eq_of_not-is_zero x e)) in
                          Rules.then-Triple _ _
                            (lcore_main-Triple d 0 rounds s' ready.started
                              (omega (arith, ready.one_rx)))
                            (λ x s'' l. absurd l) (λ s'' l. absurd l)
                            (λ s'' same. rw same ready.started) (λ a s'' l. absurd l))

-- Whatever the driver answers, main of prefetch/main.c uses port 0 in the order that ethdev asks for, and
-- never returns: it leaves by `rte_exit`, or is still in its loop after any number of rounds, with
-- the port running.
pub prefetch_main-Serves : (d : Driver) (rounds : ℕ) → Ends (ethdev 0) Serves (main rounds d [])
prefetch_main-Serves d rounds = Rules.Triple-Ends (main-Triple d rounds)

-- ===== src/Pipeline/Launch.antt =====
-- packet_parseer_ring/main.c: how the port, the rings and the threads come up.
use dpdk_folder.Prelude.{ℕ, ℤ, pos, is_neg, ◌==◌, true, false, ◌≡◌, ◌≢◌, refl, arith, []}
use dpdk_folder.Dpdk.{
  M, Driver, Outcome, done, returned, exited, running, ◌>>=◌, ◌>>◌, pure, return_if, exit_if,
  function, ask_int, ask_word, run, eal_init, pool_create, dev_configure, dev_info_get,
  rx_queue_setup, tx_queue_setup, dev_start, ring_create, remote_launch, mp_wait_lcore,
}
use dpdk_folder.Dpdk.Lifecycle.{ethdev, PortState, fresh_port, all_ready}
use dpdk_folder.Dpdk.Rules
use dpdk_folder.Dpdk.Rules.{Ends, Triple}
use dpdk_folder.Ports.Queues.{for_queues, rx_queues-Triple, tx_queues-Triple, then_queues-Triple}

-- RX_QUEUE and TX_QUEUE
abbrev pub rx_queue : ℕ
rx_queue = 4

abbrev pub tx_queue : ℕ
tx_queue = 4

unfoldable pub main : M ℤ
main = function do
  ret ← ask_int eal_init
  return_if (is_neg ret) (pos 1)
  mem_pool ← ask_word (pool_create "MY_POOL" 8192 250)
  return_if (mem_pool == 0) (pos 1)
  configured ← ask_int (dev_configure 0 rx_queue tx_queue)
  exit_if (is_neg configured)
  ask_int (dev_info_get 0)
  mbuf_pool ← ask_word (pool_create "MBUF_POOL" 8192 256)
  exit_if (mbuf_pool == 0)
  for_queues (λ i. rx_queue_setup 0 i 1024 mbuf_pool) rx_queue 0
  for_queues (λ i. tx_queue_setup 0 i 1024) tx_queue 0
  started ← ask_int (dev_start 0)
  exit_if (is_neg started)
  rx_to_parser ← ask_word (ring_create "RX_TO_PARSER" 1024)
  parse_to_tx ← ask_word (ring_create "PARSE_TO_TX" 1024)
  exit_if (rx_to_parser == 0)
  ask_int (remote_launch "receive_packet" 1)
  ask_int (remote_launch "packet_parser" 2)
  ask_int (remote_launch "transmit_packet" 3)
  run mp_wait_lcore
  pure (pos 0)

-- 0 means a running port with four queues in each direction, another result a port that does not run.
abbrev pub BringsUpFour : Outcome ℤ → PortState → Type 0
BringsUpFour (done x) s =
    (x ≡ pos 0
      → (s.started ≡ true) × (all_ready 4 s.rx_ready ≡ true) × (all_ready 4 s.tx_ready ≡ true))
    × (x ≢ pos 0 → s.started ≡ false)
BringsUpFour exited s = Unit {0}
BringsUpFour (returned x) s = ⊥
BringsUpFour running s = ⊥

main-Triple : (d : Driver) → Triple d (ethdev 0) fresh_port main BringsUpFour
unfolding main
main-Triple d = Rules.function-Triple _ (
    Rules.ask_int_other-Triple _ _ refl λ n.
      Rules.return_if-Triple _ _ _ (λ e. (λ z. ground arith, λ z. refl))
        λ e. Rules.ask_word-Triple _ _ refl λ n.
          Rules.return_if-Triple _ _ _ (λ e. (λ z. ground arith, λ z. refl))
            λ e. Rules.ask_int-Triple _ _ refl refl λ n.
              Rules.exit_if-Triple _ _ (λ e. tt)
                λ ok. rw ok (
                  Rules.then_int_other-Triple _ _ refl (
                    Rules.ask_word-Triple _ _ refl λ m.
                      Rules.exit_if-Triple _ _ (λ e. tt)
                        λ e.
                          then_queues-Triple 0 _ _
                            (rx_queues-Triple d 0 _ 1024 4 0 _ (ground arith) refl refl
                              (omega arith))
                            (λ x s n st. (λ z. ground arith, λ z. st))
                            (then_queues-Triple 0 _ _
                              (tx_queues-Triple d 0 1024 4 0 _ refl refl (omega arith))
                              (λ x s n st. (λ z. ground arith, λ z. st))
                              (Rules.ask_int-Triple _ _ refl (refl, refl, refl)
                                λ n.
                                  Rules.exit_if-Triple _ _ (λ e. tt)
                                    λ ok'. rw ok' (
                                      Rules.ask_word-Triple _ _ refl λ r.
                                        Rules.ask_word-Triple _ _ refl λ t.
                                          Rules.exit_if-Triple _ _ (λ e. tt)
                                            λ e. Rules.then_int_other-Triple _ _ refl (
                                              Rules.then_int_other-Triple _ _ refl (
                                                Rules.then_int_other-Triple _ _ refl (
                                                  Rules.then_run-Triple _ _ refl (
                                                    Rules.pure-Triple _ (
                                                      λ z. (refl, refl, refl),
                                                      λ z. absurd (z refl),
                                                    )))))))))))

-- Whatever the driver answers, main of packet_parseer_ring ends once its threads have, and uses port 0 in
-- the order that ethdev asks for. It returns 0 only when the port runs with four queues ready in
-- each direction, and returns another number only when the port does not run.
pub pipeline_main-BringsUpFour : (d : Driver) → Ends (ethdev 0) BringsUpFour (main d [])
pipeline_main-BringsUpFour d = Rules.Triple-Ends (main-Triple d)

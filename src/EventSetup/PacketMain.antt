-- ===== src/EventSetup/PacketMain.antt =====
-- main of eventdev_packet_parsing/main.c. It goes on when `port_init` fails and when a link fails.
use dpdk_folder.Prelude.{
  ℕ, ℤ, zero, suc, pos, ltb, is_neg, if◌then◌else◌, [], ◌∷◌, ◌≡◌, refl, arith, true, false,
  Bool-cases, inl, inr, ◌⊎◌,
}
use dpdk_folder.Dpdk.{
  Driver, Request, Outcome, done, returned, exited, running, caught, M, ◌>>=◌, ◌>>◌, pure, function,
  return_if, exit_if, ask_int, ask_word, run, still_running, eal_init, eal_cleanup,
  event_dev_configure, event_queue_setup, event_port_setup, event_port_link, event_dev_start,
  event_dev_stop, event_dev_close, sched_atomic, sched_parallel, remote_launch, first_worker,
  next_worker, wait_lcore,
}
use dpdk_folder.Dpdk.Rules
use dpdk_folder.Dpdk.Rules.{other_rules}
use dpdk_folder.Dpdk.Rules.{Triple, Ends, Keeps, Completes}
use dpdk_folder.Ports.EventPort.{port_init}
use dpdk_folder.EventSetup.Device.{eventdev, fresh_device, EventState, Links}
use dpdk_folder.EventSetup.Workers.{max_lcore}
use dpdk_folder.EventSetup.Sends.{Waits, then_waits-Triple}

-- RTE_LCORE_FOREACH_WORKER and its body
unfoldable pub wait_workers : (rounds lcore_id : ℕ) → M (Unit {0})
wait_workers zero lcore_id = still_running
wait_workers (suc rounds) lcore_id =
    if ltb lcore_id max_lcore
    then (do
      ask_int (wait_lcore lcore_id)
      next ← ask_word (next_worker lcore_id)
      wait_workers rounds next)
    else pure tt

unfoldable pub main : (rounds : ℕ) → M ℤ
main rounds = function do
  ret ← ask_int eal_init
  return_if (is_neg ret) (pos 1)
  port_init
  configured ← ask_int (event_dev_configure 2 3)
  return_if (is_neg configured) (pos 1)
  rx_parse ← ask_int (event_queue_setup 0 sched_atomic)
  exit_if (is_neg rx_parse)
  parse_tx ← ask_int (event_queue_setup 1 sched_parallel)
  exit_if (is_neg parse_tx)
  receive ← ask_int (event_port_setup 0)
  return_if (is_neg receive) (pos 1)
  parse ← ask_int (event_port_setup 1)
  return_if (is_neg parse) (pos 1)
  transmit ← ask_int (event_port_setup 2)
  return_if (is_neg transmit) (pos 1)
  ask_int (event_port_link 1 (0 ∷ []))
  ask_int (event_port_link 2 (1 ∷ []))
  started ← ask_int event_dev_start
  return_if (is_neg started) (pos 1)
  ask_int (remote_launch "receive_handler" 2)
  ask_int (remote_launch "transmit_handler" 3)
  ask_int (remote_launch "drop_handler" 4)
  lcore_id ← ask_word first_worker
  wait_workers rounds lcore_id
  run event_dev_stop
  run event_dev_close
  ask_int eal_cleanup
  pure (pos 0)

-- It returns 0 with the device closed or 1 with the device not running, exits, or waits for its workers
-- while the device runs.
abbrev pub Ordered : Outcome ℤ → EventState → Type 0
Ordered (done x) s = ((x ≡ pos 0) × (s ≡ fresh_device)) ⊎ ((x ≡ pos 1) × (s.started ≡ false))
Ordered (returned x) s = ⊥
Ordered exited s = Unit {0}
Ordered running s = s.started ≡ true

abbrev OrderedBody : Outcome ℤ → EventState → Type 0
OrderedBody o s = Ordered (caught o) s

-- `if (r < 0) return 1;`
module _ {d : Driver} {s : EventState} where
  or_one-Triple :
      (r : Request) (m : M ℤ)
      → eventdev.concerns r ≡ true
      → eventdev.Allowed r s
      → s.started ≡ false
      → Triple d eventdev (eventdev.succeed r s) m OrderedBody
      → Triple d eventdev s (ask_int r >>= λ x. return_if (is_neg x) (pos 1) >> m) OrderedBody
  or_one-Triple r m mine may stopped next =
      Rules.ask_or_return-Triple r (λ x. pos 1) (λ x. m) mine may (λ n e. inr (refl, stopped))
        (λ n. next)

port_init-other : (d : Driver) (s : EventState) → Triple d eventdev s port_init (Completes s)
unfolding port_init
port_init-other d s = Rules.function-Triple _ (search (other_rules, or_one-Triple) depth 20)

wait_workers-Triple :
    (d : Driver) (s : EventState) (rounds lcore_id : ℕ)
    → Triple d eventdev s (wait_workers rounds lcore_id) (Waits s)
unfolding wait_workers
wait_workers-Triple d s zero lcore_id = Rules.still_running-Triple refl
wait_workers-Triple d s (suc rounds) lcore_id = elim (Bool-cases (ltb lcore_id max_lcore)) [
  | inl e ↦ rw e (
      Rules.then_int_other-Triple _ _ refl
        (Rules.ask_word-Triple _ _ refl λ n. wait_workers-Triple d s rounds _))
  | inr e ↦ rw e (Rules.pure-Triple _ refl)
]

pub main-Triple :
    (d : Driver) (rounds : ℕ) → Links d → Triple d eventdev fresh_device (main rounds) Ordered
unfolding main
main-Triple d rounds links = Rules.function-Triple _ (
    Rules.ask_or_return_other-Triple {Post = OrderedBody} _ _ _ refl (inr (refl, refl)) (
      Rules.then_completes-Triple _ _ (port_init-other d _) (
        or_one-Triple _ _ refl refl refl (
          Rules.ask_or_exit-Triple {Post = OrderedBody} _ _ refl (refl, refl, omega arith) tt
            (Rules.ask_or_exit-Triple {Post = OrderedBody} _ _ refl (refl, refl, omega arith) tt
              (or_one-Triple _ _ refl (refl, refl, omega arith) refl
                (or_one-Triple _ _ refl (refl, refl, omega arith) refl
                  (or_one-Triple _ _ refl (refl, refl, omega arith) refl
                    (Rules.then_obliged-Triple _ _ refl (refl, refl) (λ n. rw (links.0 n 1 0) refl)
                      (Rules.then_obliged-Triple _ _ refl (refl, refl)
                        (λ n. rw (links.0 n 2 1) refl)
                        (or_one-Triple _ _ refl (refl, refl, refl, refl) refl
                          (Rules.then_int_other-Triple _ _ refl (
                            Rules.then_int_other-Triple _ _ refl (
                              Rules.then_int_other-Triple _ _ refl (
                                Rules.ask_word-Triple _ _ refl λ n.
                                  then_waits-Triple _ _ refl (wait_workers-Triple d _ rounds _) (
                                    Rules.then_run_about-Triple _ _ refl tt (
                                      Rules.then_run_about-Triple _ _ refl refl (
                                        Rules.then_int_other-Triple _ _ refl
                                          (Rules.pure-Triple _ (inl (refl, refl)))))))))))))))))))))

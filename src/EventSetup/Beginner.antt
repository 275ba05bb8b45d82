-- ===== src/EventSetup/Beginner.antt =====
-- beginner_eventdev/main.c: one event through a device of one queue.
use dpdk_folder.Prelude.{ℕ, ℤ, pos, is_neg, [], ◌∷◌, refl, arith}
use dpdk_folder.Dpdk.{
  Driver, M, ◌>>=◌, ◌>>◌, pure, function, exit_if, ask_int, run, eal_init, event_dev_configure,
  event_queue_setup, event_port_default_conf_get, event_port_setup, event_port_link,
  event_dev_start, event_dev_stop, event_dev_close, sched_atomic, print,
}
use dpdk_folder.Dpdk.Rules
use dpdk_folder.Dpdk.Rules.{Triple, Ends}
use dpdk_folder.EventSetup.Device.{eventdev, fresh_device, Links}
use dpdk_folder.EventSetup.Sends.{
  send, await_event, send-Triple, await_event-Triple, Closes, ClosesBody, then_waits-Triple,
  bind_waits-Triple,
}

abbrev pub num_queues : ℕ
num_queues = 1

abbrev pub num_ports : ℕ
num_ports = 2

unfoldable pub main : (rounds : ℕ) → M ℤ
main rounds = function do
  ret ← ask_int eal_init
  exit_if (is_neg ret)
  configured ← ask_int (event_dev_configure num_queues num_ports)
  exit_if (is_neg configured)
  queue ← ask_int (event_queue_setup 0 sched_atomic)
  exit_if (is_neg queue)
  ask_int (event_port_default_conf_get 0)
  producer ← ask_int (event_port_setup 0)
  exit_if (is_neg producer)
  ask_int (event_port_default_conf_get 1)
  consumer ← ask_int (event_port_setup 1)
  exit_if (is_neg consumer)
  ask_int (event_port_link 1 (0 ∷ []))
  started ← ask_int event_dev_start
  exit_if (is_neg started)
  send rounds 12345
  out ← await_event rounds 1
  run (print "Received event! data=" (out.addr ∷ []))
  run event_dev_stop
  run event_dev_close
  pure (pos 0)

pub main-Triple :
    (d : Driver) (rounds : ℕ) → Links d → Triple d eventdev fresh_device (main rounds) Closes
unfolding main
main-Triple d rounds links = Rules.function-Triple _ (
    Rules.ask_or_exit_other-Triple {Post = ClosesBody} _ _ refl tt (
      Rules.ask_or_exit-Triple {Post = ClosesBody} _ _ refl refl tt (
        Rules.ask_or_exit-Triple {Post = ClosesBody} _ _ refl (refl, refl, omega arith) tt
          (Rules.then_int_other-Triple _ _ refl (
            Rules.ask_or_exit-Triple {Post = ClosesBody} _ _ refl (refl, refl, omega arith) tt
              (Rules.then_int_other-Triple _ _ refl (
                Rules.ask_or_exit-Triple {Post = ClosesBody} _ _ refl (refl, refl, omega arith) tt
                  (Rules.then_obliged-Triple _ _ refl (refl, refl) (λ n. rw (links.0 n 1 0) refl)
                    (Rules.ask_or_exit-Triple {Post = ClosesBody} _ _ refl (refl, refl, refl, refl)
                      tt
                      (then_waits-Triple _ _ refl (send-Triple d _ rounds 12345 refl refl refl) (
                        bind_waits-Triple _ _ refl (await_event-Triple d _ rounds 1 refl refl)
                          λ out. Rules.then_run-Triple _ _ refl (
                            Rules.then_run_about-Triple _ _ refl tt (
                              Rules.then_run_about-Triple _ _ refl refl
                                (Rules.pure-Triple _ (refl, refl)))))))))))))))

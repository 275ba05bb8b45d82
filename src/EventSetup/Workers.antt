-- ===== src/EventSetup/Workers.antt =====
-- main of eventdev/main.c. The priorities of the links, the pauses and the identifier
-- of the service that is looked up and run are left out.
use dpdk_folder.Prelude.{
  ℕ, ℤ, zero, suc, pos, ◌+◌, ◌==◌, ltb, is_neg, if◌then◌else◌, List, [], ◌∷◌, length,
}
use dpdk_folder.Dpdk.{
  M, ◌>>=◌, ◌>>◌, pure, function, exit_if, ask_int, ask_word, run, still_running, eal_init,
  service_get_by_name, service_runstate_set, event_dev_configure, event_queue_setup,
  event_dev_start, event_dev_stop, event_dev_close, sched_atomic, remote_launch, first_worker,
  next_worker, mp_wait_lcore, core_stat, print,
}
use dpdk_folder.Events.Workers.{num_events, exit_event}
use dpdk_folder.EventSetup.Sends.{setup_ports, link_ports, send}
pub mod Order
pub mod Production

abbrev pub max_lcore : ℕ
max_lcore = 128

-- RTE_LCORE_FOREACH_WORKER and its body. The result is what was written to `worker_ports`: each worker
-- with its port; its length is `worker_count`.
unfoldable pub launch_workers : (rounds port lcore_id : ℕ) → M (List (ℕ × ℕ))
launch_workers zero port lcore_id = still_running
launch_workers (suc rounds) port lcore_id =
    if ltb lcore_id max_lcore
    then (do
      ask_int (remote_launch "worker" lcore_id)
      next ← ask_word (next_worker lcore_id)
      worker_ports ← launch_workers rounds (port + 1) next
      pure ((lcore_id, port) ∷ worker_ports))
    else pure []

-- The loop over the normal events, from event `i` on.
unfoldable pub send_events : (rounds left i : ℕ) → M (Unit {0})
send_events rounds zero i = pure tt
send_events rounds (suc left) i = do send rounds i; send_events rounds left (i + 1)

unfoldable pub send_exits : (rounds left : ℕ) → M (Unit {0})
send_exits rounds zero = pure tt
send_exits rounds (suc left) = do send rounds exit_event; send_exits rounds left

unfoldable pub print_stats : (left i : ℕ) → M (Unit {0})
print_stats zero i = pure tt
print_stats (suc left) i = do
  n ← ask_word (core_stat i)
  if n == 0 then pure tt else run (print "Core %d processed %lu events\n" (i ∷ n ∷ []))
  print_stats left (i + 1)

-- From the look-up of the service to the start of the device.
unfoldable pub set_up : M (Unit {0})
set_up = do
  found ← ask_int (service_get_by_name "event_sw0_service")
  exit_if (is_neg found)
  ask_int service_runstate_set
  configured ← ask_int (event_dev_configure 1 8)
  exit_if (is_neg configured)
  queue ← ask_int (event_queue_setup 0 sched_atomic)
  exit_if (is_neg queue)
  setup_ports 8 0
  link_ports 8 0
  started ← ask_int event_dev_start
  exit_if (is_neg started)
  pure tt

unfoldable pub main : (rounds : ℕ) → M ℤ
main rounds = function do
  ret ← ask_int eal_init
  exit_if (is_neg ret)
  set_up
  lcore_id ← ask_word first_worker
  worker_ports ← launch_workers rounds 0 lcore_id
  send_events rounds num_events 0
  send_exits rounds (length worker_ports)
  run mp_wait_lcore
  print_stats max_lcore 0
  run event_dev_stop
  run event_dev_close
  pure (pos 0)

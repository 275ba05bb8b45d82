-- ===== src/EventSetup/Workers/Order.antt =====
-- main of eventdev/main.c uses the event device in the documented order.
use dpdk_folder.Prelude.{
  ℕ, zero, suc, ◌+◌, ◌==◌, ◌≡◌, refl, true, false, arith, ltb, List, length, Bool-cases, inl, inr,
}
use dpdk_folder.Dpdk.{Driver, core_stat, print}
use dpdk_folder.Dpdk.Protocol.{Protocol}
use dpdk_folder.Dpdk.Lifecycle.{contains}
use dpdk_folder.Dpdk.Rules
use dpdk_folder.Dpdk.Rules.{Triple, Ends, Achieves, Completes}
use dpdk_folder.EventSetup.Device.{eventdev, fresh_device, EventState}
use dpdk_folder.EventSetup.Sends.{
  send-Triple, setup_ports-Triple, link_ports-Triple, Closes, ClosesBody, Waits, then_waits-Triple,
  bind_waits-Triple,
}
use dpdk_folder.EventSetup.Workers.{
  main, set_up, launch_workers, max_lcore, send_events, send_exits, print_stats,
}
use dpdk_folder.Events.Workers.{exit_event}

-- The device runs, with port 0 and queue 0.
abbrev pub IsReady : EventState → Type 0
IsReady s = (s.started ≡ true) × (contains 0 s.ports ≡ true) × (contains 0 s.queues ≡ true)

set_up-Triple : (d : Driver) → Triple d eventdev fresh_device set_up (Achieves IsReady)
unfolding set_up
set_up-Triple d = Rules.ask_or_exit_other-Triple _ _ refl tt (
    Rules.then_int_other-Triple _ _ refl (
      Rules.ask_or_exit-Triple _ _ refl refl tt (
        Rules.ask_or_exit-Triple _ _ refl (refl, refl, omega arith) tt
          (Rules.then_achieves-Triple _ _ (setup_ports-Triple d 8 0 _ refl refl (omega arith))
            (λ s. tt)
            λ s e. rw e (
              Rules.then_achieves-Triple _ _ (link_ports-Triple d 8 0 _ refl refl) (λ s. tt)
                λ s e. rw e (
                  Rules.ask_or_exit-Triple _ _ refl (refl, refl, refl, refl) tt
                    (Rules.pure-Triple _ (refl, refl, refl))))))))

pub print_stats-Triple :
    (d : Driver) (P : Protocol) (s : P.State) (left i : ℕ)
    → ((i : ℕ) → P.concerns (core_stat i) ≡ false)
    → ((t : _) (l : List ℕ) → P.concerns (print t l) ≡ false)
    → Triple d P s (print_stats left i) (Completes s)
unfolding print_stats
print_stats-Triple d P s zero i read put = Rules.pure-Triple _ refl
print_stats-Triple d P s (suc left) i read put = Rules.ask_word-Triple _ _ (read i) λ n.
    let rest = print_stats-Triple d P s left (i + 1) read put in
    elim (Bool-cases (d.word n (core_stat i) == 0)) [
      | inl e ↦ rw e (Rules.then_completes-Triple _ _ (Rules.pure-Triple _ refl) rest)
      | inr e ↦ rw e (Rules.then_run-Triple _ _ (put _ _) rest)
    ]

module _ (d : Driver) (s : EventState) (ready : IsReady s) where
  launch_workers-Triple :
      (rounds port lcore_id : ℕ)
      → Triple d eventdev s (launch_workers rounds port lcore_id) (Waits s)
  unfolding launch_workers
  launch_workers-Triple zero port lcore_id = Rules.still_running-Triple refl
  launch_workers-Triple (suc rounds) port lcore_id = elim (Bool-cases (ltb lcore_id max_lcore)) [
    | inl e ↦ rw e (
        Rules.then_int_other-Triple _ _ refl (
          Rules.ask_word-Triple _ _ refl λ n.
            bind_waits-Triple _ _ refl (launch_workers-Triple rounds (port + 1) _)
              λ worker_ports. Rules.pure-Triple _ refl))
    | inr e ↦ rw e (Rules.pure-Triple _ refl)
  ]

  send_events-Triple :
      (rounds left i : ℕ) → Triple d eventdev s (send_events rounds left i) (Waits s)
  unfolding send_events
  send_events-Triple rounds zero i = Rules.pure-Triple _ refl
  send_events-Triple rounds (suc left) i =
      then_waits-Triple _ _ refl (send-Triple d s rounds i ready.0 ready.1 ready.2)
        (send_events-Triple rounds left (i + 1))

  send_exits-Triple : (rounds left : ℕ) → Triple d eventdev s (send_exits rounds left) (Waits s)
  unfolding send_exits
  send_exits-Triple rounds zero = Rules.pure-Triple _ refl
  send_exits-Triple rounds (suc left) =
      then_waits-Triple _ _ refl (send-Triple d s rounds exit_event ready.0 ready.1 ready.2)
        (send_exits-Triple rounds left)

pub main-Triple : (d : Driver) (rounds : ℕ) → Triple d eventdev fresh_device (main rounds) Closes
unfolding main
main-Triple d rounds = Rules.function-Triple _ (
    Rules.ask_or_exit_other-Triple {Post = ClosesBody} _ _ refl tt (
      Rules.then_achieves-Triple _ _ (set_up-Triple d) (λ s. tt)
        λ s ready. Rules.ask_word-Triple _ _ refl λ n.
          bind_waits-Triple _ _ ready.0 (launch_workers-Triple d s ready rounds 0 _) λ ports.
            then_waits-Triple _ _ ready.0 (send_events-Triple d s ready rounds 20 0) (
              then_waits-Triple _ _ ready.0 (send_exits-Triple d s ready rounds (length ports)) (
                Rules.then_run-Triple _ _ refl (
                  Rules.then_completes-Triple _ _
                    (print_stats-Triple d eventdev s 128 0 (λ i. refl) (λ t l. refl))
                    (Rules.then_run_about-Triple _ _ refl tt (
                      Rules.then_run_about-Triple _ _ refl refl
                        (Rules.pure-Triple _ (refl, refl)))))))))

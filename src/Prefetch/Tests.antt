-- ===== src/Prefetch/Tests.antt =====
-- A burst of six packets, a counter, and a driver for prefetch/main.c.
use dpdk_folder.Prelude.{ℕ, List, [], ◌∷◌, ◌≡◌, refl, pos}
use dpdk_folder.Dpdk.{Driver, is_valid_port, running, value_of, machine}
use dpdk_folder.Dpdk.Bursts.{free_all}
use dpdk_folder.Prefetch.Schedule.{
  prefetch, process, schedule, processed, prefetched, IsAhead, schedule_lem,
}
use dpdk_folder.Prefetch.Rate.{Counter, rates, print_rate, count_burst}
use dpdk_folder.Prefetch.Loop.{lcore_main, rx_rounds}
use dpdk_folder.Prefetch.Program.{port_init, main}

six :
    schedule 6
    ≡ prefetch 0
      ∷ prefetch 1
      ∷ prefetch 2
      ∷ prefetch 3
      ∷ prefetch 4
      ∷ process 0
      ∷ prefetch 5
      ∷ process 1
      ∷ process 2
      ∷ process 3
      ∷ process 4
      ∷ process 5
      ∷ []
unfolding schedule
six = refl

schedule_lem_example :
    (processed (schedule 3) ≡ 0 ∷ 1 ∷ 2 ∷ [])
    × (prefetched (schedule 3) ≡ 0 ∷ 1 ∷ 2 ∷ [])
    × IsAhead 0 (schedule 3)
schedule_lem_example = schedule_lem 3

abbrev counter : Counter
counter = record { total = 0; last = 0; start = 100 }

-- Three rounds, of which the second is the first to end after more than 1000 cycles.
abbrev rounds : List (ℕ × ℕ)
rounds = (32, 600) ∷ (8, 1200) ∷ (5, 1300) ∷ []

printed_rates : (rates 1000 rounds counter).0 ≡ 40 ∷ []
unfolding rates print_rate count_burst
printed_rates = refl

-- Every burst has one packet, the pool is at 5.
abbrev steady : Driver
steady = record {
  int = λ n r. elim r [ is_valid_port _ ↦ pos 1 | _ ↦ pos 0 ];
  word = λ n r. 5;
  burst = λ n r. record { addr = n; bytes = [] } ∷ [];
}

main_serves : value_of (main 2 steady []) ≡ running
unfolding main port_init lcore_main rx_rounds free_all machine
main_serves = refl

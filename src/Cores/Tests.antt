-- ===== src/Cores/Tests.antt =====
-- Three workers, a timer that fires twice in a round, and a table that can be had.
use dpdk_folder.Prelude.{pos, ◌+◌, ◌≡◌, refl, arith, ltb, if◌then◌else◌, [], ◌∷◌}
use dpdk_folder.Dpdk.{
  Driver, done, value_of, trace_of, machine, first_worker, next_worker, timer_manage,
}
use dpdk_folder.Dpdk.Rules.{Ends}
use dpdk_folder.Cores.Launch.{hello_main, thread_main, lcore_hello, launch_each}
use dpdk_folder.Cores.Launch.Workers.{started, waited_for, onto, core_mains-Launch}
use dpdk_folder.Cores.Timer
use dpdk_folder.Cores.Timer.{timer_callback, fire, manage_rounds}
use dpdk_folder.Cores.Timer.Ticks.{
  timers, TicksOrNot, printed, below, fired, SetsOrNot, timer_main-Counts,
}

abbrev three_workers : Driver
three_workers = record {
  int = λ n r. pos 0;
  word = λ n r. elim r [
    | first_worker ↦ 1
    | next_worker i ↦ if ltb i 3 then i + 1 else 128
    | timer_manage ↦ 2
    | _ ↦ 7
  ];
  burst = λ n r. [];
}

hello_starts :
    started (trace_of (hello_main 4 three_workers []))
    ≡ ("lcore_hello", 3) ∷ ("lcore_hello", 2) ∷ ("lcore_hello", 1) ∷ []
unfolding hello_main lcore_hello launch_each machine
hello_starts = refl

two_rounds : printed (trace_of (Timer.main 2 three_workers [])) ≡ 3 ∷ 2 ∷ 1 ∷ 0 ∷ []
unfolding Timer.main timer_callback fire manage_rounds machine
two_rounds = refl

core_mains-Launch_example :
    (value_of (hello_main 4 three_workers []) ≡ done (pos 0))
    × (started (trace_of (hello_main 4 three_workers [])) ≡ onto (1 ∷ 2 ∷ 3 ∷ []) [])
    × (waited_for (trace_of (hello_main 4 three_workers [])) ≡ onto (1 ∷ 2 ∷ 3 ∷ []) [] ∷ [])
    × (value_of (thread_main three_workers []) ≡ done (pos 0))
    × (started (trace_of (thread_main three_workers []))
        ≡ ("lcore_hello1", 3) ∷ ("lcore_hello", 2) ∷ [])
    × (waited_for (trace_of (thread_main three_workers [])) ≡ [])
core_mains-Launch_example =
    core_mains-Launch three_workers (1 ∷ 2 ∷ 3 ∷ []) 4
      (record {
        starts = refl;
        here = λ n. (
          refl,
          omega arith,
          λ n. (refl, omega arith, λ n. (refl, omega arith, λ n. omega arith)),
        );
        launches = λ n function lcore. refl;
      })
      (omega arith)

timer_main-Counts_example :
    Ends timers TicksOrNot (Timer.main 2 three_workers [])
    × SetsOrNot three_workers (Timer.main 2 three_workers [])
    × (printed (trace_of (Timer.main 2 three_workers []))
        ≡ below (fired (trace_of (Timer.main 2 three_workers []))))
unfolding Timer.main timer_callback fire manage_rounds machine
timer_main-Counts_example = timer_main-Counts three_workers 2 (omega arith)

-- ===== src/Rcu/Tests.antt =====
-- Runs of rcu_dpdk/main.c.
use dpdk_folder.Prelude.{◌≡◌, refl, arith, true, [], ◌∷◌, some}
use dpdk_folder.Rcu.Steps.{
  System, Reachable, stays, then_steps, started, registers, goes_online, locks, loads, prints,
  unlocks, reports_quiescent, allocates, swaps, starts_synchronize, returns_from_synchronize,
  frees_old,
}
use dpdk_folder.Rcu.Safety.{rcu_reads_live, IsDescending, HeapIs, WaitsForReader}

-- synchronize returns as soon as it may.
abbrev IsQuiet : System → Type 0
IsQuiet s = s.quiet ≡ true

IsQuiet-Waits : WaitsForReader IsQuiet
IsQuiet-Waits s q = q

-- The reader loads block 3, the writer replaces it by block 8 and waits; the reader prints the old value,
-- and then the writer frees the old block.
replaced : (s : System) × Reachable IsQuiet (started 3) s
replaced = (
  _,
  then_steps
      (then_steps
        (then_steps
          (then_steps
            (then_steps
              (then_steps
                (then_steps
                  (then_steps
                    (then_steps
                      (then_steps
                        (then_steps (then_steps stays (registers refl)) (goes_online refl))
                        (locks refl refl))
                      (loads refl))
                    (allocates 0 8 refl (omega arith) refl))
                  (swaps 0 8 refl))
                (starts_synchronize 0 3 refl))
              (prints 3 refl))
            (unlocks refl))
          (reports_quiescent refl))
        (returns_from_synchronize 0 3 refl refl))
      (frees_old 0 3 refl),
)

old_value_printed : replaced.0.printed ≡ some 0 ∷ []
unfolding replaced
old_value_printed = refl

old_block_freed : replaced.0.heap ≡ (8, 1) ∷ []
unfolding replaced
old_block_freed = refl

rcu_reads_live_example : IsDescending 5 replaced.0.printed × HeapIs replaced.0.writer replaced.0
rcu_reads_live_example = rcu_reads_live IsQuiet 3 replaced.0 IsQuiet-Waits replaced.1

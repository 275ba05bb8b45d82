-- ===== src/Cores/Timer.antt =====
-- timer_dpdk/main.c: a timer that fires every two seconds, and a loop that manages it.
use dpdk_folder.Prelude.{ℕ, ℤ, zero, suc, pos, negsuc, ◌+◌, ◌*◌, ◌%◌, ◌^◌, u64, is_neg, [], ◌∷◌}
use dpdk_folder.Dpdk.{
  M, ◌>>=◌, ◌>>◌, pure, function, return_if, ask_int, ask_word, run, still_running, eal_init,
  lcore_id, timer_subsystem_init, timer_init, timer_hz, timer_reset, timer_manage, print,
}
pub mod Ticks

-- `timer_callback`, with its static `count`, by its 32 bits, as a parameter and the next one as the result. The
-- source's `count` is an int: its increment is defined below 2^31 - 1 only.
unfoldable pub timer_callback : (count : ℕ) → M ℕ
timer_callback count = do
  id ← ask_word lcore_id
  run (print "Timer triggered! Count = %d on lcore %u\n" (count ∷ id ∷ []))
  pure ((count + 1) % 2 ^ 32)

-- `rte_timer_manage` calls the function so many times.
unfoldable pub fire : (times count : ℕ) → M ℕ
fire zero count = pure count
fire (suc times) count = do count' ← timer_callback count; fire times count'

-- `while (1)`; it is the timer's library that calls `timer_callback` in between.
unfoldable pub manage_rounds : (rounds count : ℕ) → M (Unit {0})
manage_rounds zero count = still_running
manage_rounds (suc rounds) count = do
  run (print "Processing packets...\n" [])
  times ← ask_word timer_manage
  count' ← fire times count
  manage_rounds rounds count'

unfoldable pub main : (rounds : ℕ) → M ℤ
main rounds = function do
  ret ← ask_int eal_init
  return_if (is_neg ret) (negsuc 0)
  ask_int timer_subsystem_init
  run timer_init
  hz ← ask_word timer_hz
  run (print "Timer frequency = %lu cycles per second\n" (hz ∷ []))
  id ← ask_word lcore_id
  ask_int (timer_reset (u64 (2 * hz)) id)
  manage_rounds rounds 0
  pure (pos 0)

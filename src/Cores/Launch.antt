-- ===== src/Cores/Launch.antt =====
-- lcore/lcore.c, which greets from every core, and lcore_thread/lcore.c, which starts two.
use dpdk_folder.Prelude.{ℕ, ℤ, zero, suc, pos, is_neg, ltb, if◌then◌else◌, [], ◌∷◌}
use dpdk_folder.Dpdk.{
  M, ◌>>=◌, ◌>>◌, pure, function, return_if, exit_if, ask_int, ask_word, run, still_running,
  eal_init, lcore_id, remote_launch, first_worker, next_worker, mp_wait_lcore, delay_ms, print,
}
pub mod Workers

-- RTE_MAX_LCORE
abbrev pub max_lcore : ℕ
max_lcore = 128

unfoldable pub lcore_hello : M ℤ
lcore_hello = do id ← ask_word lcore_id; run (print "Hello from core %u\n" (id ∷ [])); pure (pos 0)

-- RTE_LCORE_FOREACH_WORKER and its body
unfoldable pub launch_each : (rounds lcore : ℕ) → M (Unit {0})
launch_each zero lcore = still_running
launch_each (suc rounds) lcore =
    if ltb lcore max_lcore
    then (do
      ask_int (remote_launch "lcore_hello" lcore)
      next ← ask_word (next_worker lcore)
      launch_each rounds next)
    else pure tt

-- main of lcore/lcore.c; what it prints of sizes and arguments is left out.
unfoldable pub hello_main : (rounds : ℕ) → M ℤ
hello_main rounds = function do
  ret ← ask_int eal_init
  return_if (is_neg ret) (pos 1)
  lcore_hello
  lcore ← ask_word first_worker
  launch_each rounds lcore
  run mp_wait_lcore
  pure (pos 0)

-- The functions of lcore_thread/lcore.c.
unfoldable pub thread_hello : M ℤ
thread_hello = do
  id ← ask_word lcore_id
  run (print "Hello from core %u\n" (id ∷ []))
  run (print "Lcore_hello\n" [])
  pure (pos 0)

unfoldable pub thread_hello1 : M ℤ
thread_hello1 = do
  id ← ask_word lcore_id
  run (print "Hello from core %u\n" (id ∷ []))
  run (delay_ms 5000)
  run (print "Lcore_hello1\n" [])
  pure (pos 0)

-- main of lcore_thread/lcore.c, which waits for no core.
unfoldable pub thread_main : M ℤ
thread_main = function do
  ret ← ask_int eal_init
  exit_if (is_neg ret)
  id ← ask_word lcore_id
  run (print "Main lcore : %d\n" (id ∷ []))
  ask_int (remote_launch "lcore_hello" 2)
  ask_int (remote_launch "lcore_hello1" 3)
  run (print "Exit Main Thread....\n" [])
  pure (pos 0)

-- ===== src/Memory/MemInfo.antt =====
-- mem_info/main.c: sets port 0 up and prints the layout of each buffer that it receives. The pool is tested
-- after it was used, and the result of the start is not tested.
use dpdk_folder.Prelude.{
  ℕ, ℤ, pos, negsuc, ◌≡◌, ◌==◌, refl, arith, is_neg, is_zero, List, [], ◌∷◌, length,
}
use dpdk_folder.Dpdk.{
  Mbuf, Driver, Trace, done, running, burst_of, did, M, ◌>>=◌, ◌>>◌, pure, return_if, function,
  ask_int, ask_word, ask_burst, run, eal_init, is_valid_port, dev_configure, pool_create, dev_start,
  rx_burst, print, rx_queue_setup, tx_queue_setup, value_of, trace_of, machine,
}
use dpdk_folder.Dpdk.Loops.{forever, RoundConserves, forever-Conserves}
use dpdk_folder.Dpdk.Ownership.{released}
use dpdk_folder.Ports.Queues.{for_queues}
use dpdk_folder.Memory.Buffers.{Buffer}
use dpdk_folder.Memory.MemInfo2.{mbuf_info}

module _ (buffer_of : Mbuf → Buffer) where
  unfoldable pub print_mbuf_info : Mbuf → M (Unit {0})
  print_mbuf_info m = run (print "" (mbuf_info (buffer_of m)))

  unfoldable pub print_each : List Mbuf → M (Unit {0})
  print_each [] = pure tt
  print_each (m ∷ pkts) = do print_mbuf_info m; print_each pkts

  unfoldable pub rx_round : M (Unit {0})
  rx_round = do pkts ← ask_burst (rx_burst 0 0 32); print_each pkts

  unfoldable pub main : (rounds : ℕ) → M ℤ
  main rounds = function do
    ret ← ask_int eal_init
    return_if (is_neg ret) (negsuc 0)
    let rx_queue : ℕ = 1
    let tx_queue : ℕ = 1
    valid ← ask_int (is_valid_port 0)
    return_if (is_zero valid) (negsuc 0)
    configured ← ask_int (dev_configure 0 rx_queue tx_queue)
    mbuf_pool ← ask_word (pool_create "MBUF_POOL" 1024 256)
    return_if (is_neg configured) configured
    for_queues (λ q. rx_queue_setup 0 q 1024 mbuf_pool) rx_queue 0
    for_queues (λ q. tx_queue_setup 0 q 1024) tx_queue 0
    ask_int (dev_start 0)
    return_if (mbuf_pool == 0) (negsuc 0)
    forever rounds rx_round
    pure (pos 0)

  print_each-Keeps :
      (a : ℕ) (ms : List Mbuf) (d : Driver) (h : Trace)
      → (value_of (print_each ms d h) ≡ done tt)
        × (released a (trace_of (print_each ms d h)) ≡ released a h)
  unfolding print_each print_mbuf_info machine
  print_each-Keeps a [] d h = (refl, refl)
  print_each-Keeps a (m ∷ ms) d h =
      print_each-Keeps a ms d (did (print "" (mbuf_info (buffer_of m))) ∷ h)

  rx_round-Keeps : (a : ℕ) → RoundConserves (released a) (λ _. 0) rx_round
  unfolding rx_round machine
  rx_round-Keeps a d h =
      let ms = d.burst (length h) (rx_burst 0 0 32) in
      let (v, r) = print_each-Keeps a ms d (burst_of (rx_burst 0 0 32) ms ∷ h) in
      (v, omega (arith, r))

  -- However long it runs, the receive loop of mem_info/main.c gives no buffer back.
  pub mem_info_loses_all :
      (rounds a : ℕ) (d : Driver) (h : Trace)
      → (value_of (forever rounds rx_round d h) ≡ running)
        × (released a (trace_of (forever rounds rx_round d h)) ≡ released a h)
  mem_info_loses_all rounds a d h =
      let (v, r) = forever-Conserves (released a) (λ _. 0) rounds rx_round (rx_round-Keeps a) d h in
      (v, omega (arith, r))

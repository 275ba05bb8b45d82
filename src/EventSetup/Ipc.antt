-- ===== src/EventSetup/Ipc.antt =====
-- ipc_eventdev: prim.c sends a new buffer as a request and frees what comes back; sec.c sends each request
-- back as a reply. The primary checks none of its set-up calls. Pauses are left out.
use dpdk_folder.Prelude.{
  ℕ, ℤ, zero, suc, pos, ◌+◌, ◌==◌, is_neg, if◌then◌else◌, List, [], ◌∷◌, ◌≡◌, ◌≢◌, refl, arith,
  true, false, Bool-cases, inl, inr, length,
}
use dpdk_folder.Dpdk.{
  Mbuf, Driver, Trace, Request, done, running, word_of, burst_of, did, M, ◌>>=◌, ◌>>◌, pure,
  function, exit_if, ask_int, ask_word, ask_burst, run, still_running, value_of, trace_of, machine,
  eal_init, pool_create, pktmbuf_alloc, pktmbuf_free, mempool_lookup, event_dev_count,
  event_dev_configure, event_queue_setup, event_port_setup, event_port_link, event_dev_start,
  event_enqueue, event_dequeue, sched_atomic, op_new,
}
use dpdk_folder.Dpdk.Loops.{forever, RoundConserves, Conserves, forever-Conserves}
use dpdk_folder.Dpdk.Ownership.{received, released}
use dpdk_folder.Events.Handlers.{accepted, refused, delivered, offered}
pub mod Order

-- A pointer to a buffer, whose bytes do not matter here.
abbrev pub buffer : ℕ → Mbuf
buffer p = record { addr = p; bytes = [] }

unfoldable pub set_up : M (Unit {0})
set_up = do
  ask_int (event_dev_configure 2 2)
  ask_int (event_queue_setup 0 sched_atomic)
  ask_int (event_queue_setup 1 sched_atomic)
  ask_int (event_port_setup 0)
  ask_int (event_port_setup 1)
  ask_int (event_port_link 0 (0 ∷ 1 ∷ []))
  ask_int (event_port_link 1 (0 ∷ 1 ∷ []))
  ask_int event_dev_start
  pure tt

abbrev pub free_reply : List Mbuf → M (Unit {0})
free_reply [] = pure tt
free_reply (mbuf ∷ _) = run (pktmbuf_free mbuf)

unfoldable pub request_round : (mp : ℕ) → M (Unit {0})
request_round mp = do
  mbuf ← ask_word (pktmbuf_alloc mp)
  if mbuf == 0 then pure tt else (do
    ask_word (event_enqueue 0 0 op_new (buffer mbuf))
    rev ← ask_burst (event_dequeue 0)
    free_reply rev)

unfoldable pub primary : (rounds : ℕ) → M ℤ
primary rounds = function do
  ret ← ask_int eal_init
  exit_if (is_neg ret)
  mp ← ask_word (pool_create "MBUF_POOL" 1024 32)
  exit_if (mp == 0)
  set_up
  forever rounds (request_round mp)
  pure (pos 0)

-- `while (rte_event_dev_count() == 0) sleep(1);`
unfoldable pub wait_device : (rounds : ℕ) → M (Unit {0})
wait_device zero = still_running
wait_device (suc rounds) = do
  n ← ask_word event_dev_count
  if n == 0 then wait_device rounds else pure tt

abbrev pub send_reply : List Mbuf → M (Unit {0})
send_reply [] = pure tt
send_reply (mbuf ∷ _) = do ask_word (event_enqueue 1 1 op_new mbuf); pure tt

unfoldable pub reply_round : M (Unit {0})
reply_round = do ev ← ask_burst (event_dequeue 1); send_reply ev

unfoldable pub secondary : (rounds : ℕ) → M ℤ
secondary rounds = function do
  ret ← ask_int eal_init
  exit_if (is_neg ret)
  wait_device rounds
  mp ← ask_word (mempool_lookup "MBUF_POOL")
  exit_if (mp == 0)
  forever rounds reply_round
  pure (pos 0)

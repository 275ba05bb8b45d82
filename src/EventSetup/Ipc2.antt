-- ===== src/EventSetup/Ipc2.antt =====
-- ipc_eventdev2: primary.c sets a device up, sends 100 and waits for an event; secondary.c waits for an event
-- and sends back its number plus one. Both use port 0. Pauses are left out.
use dpdk_folder.Prelude.{
  ℕ, ℤ, pos, negsuc, ◌+◌, is_neg, u64, [], ◌∷◌, ◌≡◌, refl, arith, true, false, ◌⊎◌, inl, inr,
}
use dpdk_folder.Dpdk.{
  Driver, Request, Outcome, done, returned, exited, running, caught, M, ◌>>=◌, ◌>>◌, pure,
  return_if, function, exit_if, ask_int, ask_word, run, eal_init, event_dev_configure,
  event_queue_setup, event_port_setup, event_port_link, event_dev_start, event_enqueue,
  sched_atomic, op_new, op_forward, print,
}
use dpdk_folder.Dpdk.Rules
use dpdk_folder.Dpdk.Rules.{Triple, Ends, Reaches}
use dpdk_folder.EventSetup.Device.{eventdev, fresh_device, EventState}
use dpdk_folder.EventSetup.Sends.{u64_event, await_event, await_event-Triple}

unfoldable pub setup_eventdev : M ℤ
setup_eventdev = function do
  configured ← ask_int (event_dev_configure 1 1)
  return_if (is_neg configured) (negsuc 0)
  queue ← ask_int (event_queue_setup 0 sched_atomic)
  return_if (is_neg queue) (negsuc 0)
  port ← ask_int (event_port_setup 0)
  return_if (is_neg port) (negsuc 0)
  linked ← ask_int (event_port_link 0 [])
  return_if (is_neg linked) (negsuc 0)
  started ← ask_int event_dev_start
  return_if (is_neg started) (negsuc 0)
  pure (pos 0)

-- main of primary.c, behind the set-up. Whether the event was accepted is not checked.
unfoldable pub exchange : (rounds : ℕ) → M ℤ
exchange rounds = do
  ask_word (event_enqueue 0 0 op_new (u64_event 100))
  rev ← await_event rounds 0
  run (print "Primary: reply received = %lu\n" (rev.addr ∷ []))
  pure (pos 0)

-- `rte_panic` ends the process as `rte_exit` does.
unfoldable pub primary : (rounds : ℕ) → M ℤ
primary rounds = function do
  ret ← ask_int eal_init
  exit_if (is_neg ret)
  ready ← setup_eventdev
  exit_if (is_neg ready)
  exchange rounds

unfoldable pub secondary : (rounds : ℕ) → M ℤ
secondary rounds = function do
  ret ← ask_int eal_init
  exit_if (is_neg ret)
  ev ← await_event rounds 0
  run (print "Secondary: received value = %lu\n" (ev.addr ∷ []))
  ask_word (event_enqueue 0 0 op_forward (u64_event (u64 (ev.addr + 1))))
  pure (pos 0)

-- The device runs with one port and one queue.
abbrev pub OneReady : EventState → Type 0
OneReady s = (s.started ≡ true) × (s.ports ≡ 0 ∷ []) × (s.queues ≡ 0 ∷ [])

-- 0 with the device ready, or -1 with a device that does not run
abbrev pub SetsUp : Outcome ℤ → EventState → Type 0
SetsUp (done x) s = ((x ≡ pos 0) × OneReady s) ⊎ ((x ≡ negsuc 0) × (s.started ≡ false))
SetsUp (returned x) s = ⊥
SetsUp exited s = ⊥
SetsUp running s = ⊥

abbrev SetsUpBody : Outcome ℤ → EventState → Type 0
SetsUpBody o s = SetsUp (caught o) s

or_minus_one-Triple :
    {d : Driver} {s : EventState} (r : Request) (m : M ℤ)
    → eventdev.concerns r ≡ true
    → eventdev.Allowed r s
    → s.started ≡ false
    → Triple d eventdev (eventdev.succeed r s) m SetsUpBody
    → Triple d eventdev s (ask_int r >>= λ x. return_if (is_neg x) (negsuc 0) >> m) SetsUpBody
or_minus_one-Triple r m mine may stopped next =
    Rules.ask_or_return-Triple r (λ x. negsuc 0) (λ x. m) mine may (λ n e. inr (refl, stopped))
      (λ n. next)

setup_eventdev-Triple : (d : Driver) → Triple d eventdev fresh_device setup_eventdev SetsUp
unfolding setup_eventdev
setup_eventdev-Triple d = Rules.function-Triple _ (
    or_minus_one-Triple _ _ refl refl refl (
      or_minus_one-Triple _ _ refl (refl, refl, omega arith) refl
        (or_minus_one-Triple _ _ refl (refl, refl, omega arith) refl
          (or_minus_one-Triple _ _ refl (refl, refl) refl
            (or_minus_one-Triple _ _ refl (refl, refl, refl, refl) refl
              (Rules.pure-Triple _ (inl (refl, (refl, refl, refl)))))))))

-- It ends by `return 0` while the device runs, by `rte_panic`, or waits for the reply.
abbrev pub Replied : ℤ → EventState → Type 0
Replied x s = (x ≡ pos 0) × OneReady s

exchange-Triple :
    (d : Driver) (rounds : ℕ) (x : ℤ) (s : EventState)
    → is_neg x ≡ false
    → SetsUp (done x) s
    → Triple d eventdev s (exchange rounds) (Reaches Replied)
unfolding exchange
exchange-Triple d rounds x s e (inl (zero', ready)) =
    Rules.then_word_about-Triple _ _ refl refl (ready.0, rw ready.1 refl, rw ready.2 refl)
      (Rules.bind-Triple _ _ (await_event-Triple d s rounds 0 ready.0 (rw ready.1 refl))
        (λ x s l. absurd l) (λ s l. absurd l) (λ s l. tt)
        λ rev s' e. rw e (Rules.then_run-Triple _ _ refl (Rules.pure-Triple _ (refl, ready))))
exchange-Triple d rounds x s e (inr down) = cc

pub primary-Triple :
    (d : Driver) (rounds : ℕ) → Triple d eventdev fresh_device (primary rounds) (Reaches Replied)
unfolding primary
primary-Triple d rounds = Rules.reaching-Triple _ (
    Rules.ask_or_exit_other-Triple _ _ refl tt (
      Rules.bind-Triple _ _ (setup_eventdev-Triple d) (λ x s l. absurd l) (λ s l. absurd l)
        (λ s l. absurd l)
        λ x s set_up.
          Rules.exit_if-Triple _ _ (λ e. tt) (λ e. exchange-Triple d rounds x s e set_up)))

-- ===== src/Events/Handlers.antt =====
-- eventdev_packet_parsing/main.c: the three functions that main launches on worker cores. The text that
-- `transmit_handler` prints of a packet is the subject of Parsing/Parse.antt.
use dpdk_folder.Prelude.{
  split_if, ℕ, ◌+◌, ◌==◌, if◌then◌else◌, List, [], ◌∷◌, length, ◌≡◌, refl, arith, ==_iff,
  Bool-cases, inl, inr,
}
use dpdk_folder.Dpdk.{
  Mbuf, Driver, Trace, done, running, word_of, burst_of, rx_burst, event_enqueue, event_dequeue,
  op_new, op_release, pktmbuf_free, M, ◌>>=◌, ◌>>◌, pure, run, ask_word, ask_burst, value_of,
  trace_of, machine,
}
use dpdk_folder.Dpdk.Loops.{forever, Conserves, RoundConserves, forever-Conserves}
use dpdk_folder.Dpdk.Ownership.{count, count_of_length, received, released}

-- `for (i = 0; i < received; i++)`: one event for each packet, to queue 0. A failed enqueue is not tried
-- again.
unfoldable pub enqueue_each : List Mbuf → M (Unit {0})
enqueue_each [] = pure tt
enqueue_each (m ∷ buf) = do ask_word (event_enqueue 0 0 op_new m); enqueue_each buf

unfoldable pub receive_round : M (Unit {0})
receive_round = do
  buf ← ask_burst (rx_burst 0 0 32)
  if length buf == 0 then pure tt else enqueue_each buf

unfoldable pub receive_handler : (rounds : ℕ) → M (Unit {0})
receive_handler rounds = forever rounds receive_round

-- The event has come from queue 0, to which port 1 is linked.
abbrev pub release_and_free : (port : ℕ) → List Mbuf → M (Unit {0})
release_and_free port [] = pure tt
release_and_free port (packet ∷ _) = do
  ask_word (event_enqueue port 0 op_release packet)
  run (pktmbuf_free packet)

unfoldable pub transmit_handler : (rounds : ℕ) → M (Unit {0})
transmit_handler rounds = forever rounds (ask_burst (event_dequeue 1) >>= release_and_free 1)

-- It dequeues from port 1 as well, and releases on port 2.
unfoldable pub drop_handler : (rounds : ℕ) → M (Unit {0})
drop_handler rounds = forever rounds (ask_burst (event_dequeue 1) >>= release_and_free 2)

-- How often a buffer was in an event that the device accepted, in one that it refused, and in one that it
-- delivered.
abbrev pub accepted : ℕ → Trace → ℕ
accepted a [] = 0
accepted a (word_of (event_enqueue _ _ op_new m) n ∷ h) =
    (if n == 0 then 0 else if m.addr == a then 1 else 0) + accepted a h
accepted a (_ ∷ h) = accepted a h

abbrev pub refused : ℕ → Trace → ℕ
refused a [] = 0
refused a (word_of (event_enqueue _ _ op_new m) n ∷ h) =
    (if n == 0 then (if m.addr == a then 1 else 0) else 0) + refused a h
refused a (_ ∷ h) = refused a h

abbrev pub delivered : ℕ → Trace → ℕ
delivered a [] = 0
delivered a (burst_of (event_dequeue _) (m ∷ _) ∷ h) =
    (if m.addr == a then 1 else 0) + delivered a h
delivered a (_ ∷ h) = delivered a h

-- Accepted or not.
abbrev pub offered : ℕ → Trace → ℕ
offered a h = accepted a h + refused a h

enqueue_each-Conserves :
    (a : ℕ) (ms : List Mbuf) (d : Driver) (h : Trace)
    → (value_of (enqueue_each ms d h) ≡ done tt)
      × (offered a (trace_of (enqueue_each ms d h)) ≡ count a ms + offered a h)
      × (received a (trace_of (enqueue_each ms d h)) ≡ received a h)
      × (released a (trace_of (enqueue_each ms d h)) ≡ released a h)
unfolding enqueue_each machine
enqueue_each-Conserves a [] d h = (refl, omega arith, refl, refl)
enqueue_each-Conserves a (m ∷ ms) d h =
    let n = d.word (length h) (event_enqueue 0 0 op_new m) in
    let (v, i, r, f) = enqueue_each-Conserves a ms d (word_of (event_enqueue 0 0 op_new m) n ∷ h) in
    (v, omega (arith, i, split_if (n == 0) (if m.addr == a then 1 else 0)), r, f)

receive_round-Conserves : (a : ℕ) → RoundConserves (offered a) (received a) receive_round
unfolding receive_round machine
receive_round-Conserves a d h =
    let ms = d.burst (length h) (rx_burst 0 0 32) in
    let (v, i, r, f) = enqueue_each-Conserves a ms d (burst_of (rx_burst 0 0 32) ms ∷ h) in
    elim (Bool-cases (length ms == 0)) [
      | inl e ↦ rw e (refl, omega (arith, count_of_length a ms ((==_iff (length ms) 0).0 e)))
      | inr e ↦ rw e (v, omega (arith, i, r))
    ]

receive_round-released : (a : ℕ) → RoundConserves (released a) (λ _. 0) receive_round
unfolding receive_round machine
receive_round-released a d h =
    let ms = d.burst (length h) (rx_burst 0 0 32) in
    let (v, i, r, f) = enqueue_each-Conserves a ms d (burst_of (rx_burst 0 0 32) ms ∷ h) in
    elim (Bool-cases (length ms == 0)) [
      | inl e ↦ rw e (refl, omega arith)
      | inr e ↦ rw e (v, omega (arith, f))
    ]

-- However long it runs, `receive_handler` puts every packet that it receives into an event, as often as
-- it receives it, and never frees one: a packet whose event the device refuses is lost.
pub receive_handler_loses_refused :
    (rounds a : ℕ) (d : Driver)
    → (value_of (receive_handler rounds d []) ≡ running)
      × (accepted a (trace_of (receive_handler rounds d []))
            + refused a (trace_of (receive_handler rounds d []))
          ≡ received a (trace_of (receive_handler rounds d [])))
      × (released a (trace_of (receive_handler rounds d [])) ≡ 0)
unfolding receive_handler
receive_handler_loses_refused rounds a d =
    let (v, i) =
      forever-Conserves (offered a) (received a) rounds receive_round (receive_round-Conserves a) d
        [] in
    let (_, f) =
      forever-Conserves (released a) (λ _. 0) rounds receive_round (receive_round-released a) d
        [] in
    (v, omega (arith, i), omega (arith, f))

deliver-Conserves :
    (port a : ℕ)
    → RoundConserves
        (released a)
        (delivered a)
        (ask_burst (event_dequeue 1) >>= release_and_free port)
unfolding machine
deliver-Conserves port a d h = by_burst (d.burst (length h) (event_dequeue 1))
  where
    by_burst :
        (ms : List Mbuf)
        → (value_of (release_and_free port ms d (burst_of (event_dequeue 1) ms ∷ h)) ≡ done tt)
          × Conserves
              (released a)
              (delivered a)
              h
              (trace_of (release_and_free port ms d (burst_of (event_dequeue 1) ms ∷ h)))
    by_burst [] = (refl, omega arith)
    by_burst (m ∷ ms) = (refl, omega arith)

-- However long they run, `transmit_handler` and `drop_handler` free the packet of every event that the
-- device delivers to them, once.
pub handlers_free_delivered :
    (rounds a : ℕ) (d : Driver)
    → (value_of (transmit_handler rounds d []) ≡ running)
      × (released a (trace_of (transmit_handler rounds d []))
          ≡ delivered a (trace_of (transmit_handler rounds d [])))
      × (value_of (drop_handler rounds d []) ≡ running)
      × (released a (trace_of (drop_handler rounds d []))
          ≡ delivered a (trace_of (drop_handler rounds d [])))
unfolding transmit_handler drop_handler
handlers_free_delivered rounds a d =
    let (v, c) =
      forever-Conserves (released a) (delivered a) rounds _ (deliver-Conserves 1 a) d [] in
    let (v', c') =
      forever-Conserves (released a) (delivered a) rounds _ (deliver-Conserves 2 a) d [] in
    (v, omega (arith, c), v', omega (arith, c'))

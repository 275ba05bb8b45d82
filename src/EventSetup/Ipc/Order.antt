-- ===== src/EventSetup/Ipc/Order.antt =====
-- What the two processes of ipc_eventdev do to the event device and to the buffers.
use dpdk_folder.Prelude.{
  pos, split_if, ℕ, ◌+◌, ◌==◌, is_neg, if◌then◌else◌, List, [], ◌∷◌, ◌≡◌, ◌≢◌, refl, arith, true,
  false, suc, Bool-cases, inl, inr, length,
}
use dpdk_folder.Dpdk.{
  event_port_link, Mbuf, Driver, Trace, Request, done, word_of, burst_of, value_of, trace_of,
  machine, pktmbuf_alloc, event_enqueue, event_dequeue, op_new,
}
use dpdk_folder.Dpdk.Loops.{forever, RoundConserves, Conserves, forever-Conserves}
use dpdk_folder.Dpdk.Ownership.{received, released}
use dpdk_folder.Dpdk.Rules
use dpdk_folder.Dpdk.Rules.{call_rules}
use dpdk_folder.Dpdk.Rules.{Triple, Ends, Serves, Completes}
use dpdk_folder.Events.Handlers.{accepted, refused, delivered, offered}
use dpdk_folder.EventSetup.Device.{eventdev, fresh_device, EventState}
use dpdk_folder.EventSetup.Ipc.{
  buffer, set_up, request_round, reply_round, primary, free_reply, send_reply,
}

-- No call of the set-up fails, and each link is made.
abbrev pub Obliges : Driver → Type 0
Obliges d =
    ((n : ℕ) (r : Request) → is_neg (d.int n r) ≡ false)
    × ((n p : ℕ) → d.int n (event_port_link p (0 ∷ 1 ∷ [])) ≡ pos 2)

-- The device runs, with ports 0 and 1 and queues 0 and 1.
abbrev pub BothReady : EventState → Type 0
BothReady s = (s.started ≡ true) × (s.ports ≡ 1 ∷ 0 ∷ []) × (s.queues ≡ 1 ∷ 0 ∷ [])

set_up-Triple :
    (d : Driver) → Obliges d → Triple d eventdev fresh_device set_up (Rules.Achieves BothReady)
unfolding set_up
set_up-Triple d (ok, links) =
    Rules.then_obliged-Triple _ _ refl refl (λ n. ok n _)
      (Rules.then_obliged-Triple _ _ refl (refl, refl, omega arith) (λ n. ok n _)
        (Rules.then_obliged-Triple _ _ refl (refl, refl, omega arith) (λ n. ok n _)
          (Rules.then_obliged-Triple _ _ refl (refl, refl, omega arith) (λ n. ok n _)
            (Rules.then_obliged-Triple _ _ refl (refl, refl, omega arith) (λ n. ok n _)
              (Rules.then_obliged-Triple _ _ refl (refl, refl) (λ n. rw (links n 0) refl)
                (Rules.then_obliged-Triple _ _ refl (refl, refl) (λ n. rw (links n 1) refl)
                  (Rules.then_obliged-Triple _ _ refl (refl, refl, refl, refl) (λ n. ok n _)
                    (Rules.pure-Triple _ (refl, refl, refl)))))))))

module _ (d : Driver) (s : EventState) (up : BothReady s) where
  free_reply-Triple : (ms : List Mbuf) → Triple d eventdev s (free_reply ms) (Completes s)
  free_reply-Triple [] = Rules.pure-Triple _ refl
  free_reply-Triple (m ∷ ms) = Rules.run_other-Triple _ refl refl

  request_round-Triple : (mp : ℕ) → Triple d eventdev s (request_round mp) (Completes s)
  unfolding request_round
  request_round-Triple mp = Rules.ask_word-Triple _ _ refl λ n.
      elim (Bool-cases (d.word n (pktmbuf_alloc mp) == 0)) [
        | inl e ↦ rw e (Rules.pure-Triple _ refl)
        | inr e ↦ rw e (
            Rules.then_word_about-Triple _ _ refl refl (up.0, rw up.1 refl, rw up.2 refl)
              (Rules.ask_burst-Triple _ _ (up.0, rw up.1 refl) λ n. free_reply-Triple _))
      ]

primary-Triple :
    (d : Driver)
    → Obliges d
    → (rounds : ℕ) → Triple d eventdev fresh_device (primary rounds) (Serves BothReady)
unfolding primary
primary-Triple d ok rounds = Rules.serving-Triple _ (
    Rules.ask_or_exit_other-Triple _ _ refl tt (
      Rules.ask_word-Triple _ _ refl λ n.
        Rules.exit_if-Triple _ _ (λ e. tt)
          λ e.
            Rules.then_achieves-Triple _ _ (set_up-Triple d ok) (λ s. tt)
              λ s up.
                Rules.then_stay-Triple _ _ up
                  (Rules.forever-Triple rounds _ (request_round-Triple d s up _))))

-- A buffer that is allocated is offered to the device, and one that is delivered is freed.
request_round-Conserves :
    (mp a : ℕ)
    → a ≢ 0
    → RoundConserves (received a) (offered a) (request_round mp)
      × RoundConserves (delivered a) (released a) (request_round mp)
unfolding request_round machine
request_round-Conserves mp a ne = (λ d h. offers d h, λ d h. frees d h)
  where
    offers : RoundConserves (received a) (offered a) (request_round mp)
    offers d h =
        let m = d.word (length h) (pktmbuf_alloc mp) in
        elim (Bool-cases (m == 0)) [
          | inl e ↦
              let other : (m == a) ≡ false = ground arith in rw e (refl, rw other (omega arith))
          | inr e ↦ rw e (by_reply m _ (d.burst _ (event_dequeue 0)))
        ]
      where
        by_reply :
            (m n : ℕ) (ms : List Mbuf)
            → let h' =
                burst_of (event_dequeue 0) ms
                ∷ word_of (event_enqueue 0 0 op_new (buffer m)) n
                ∷ word_of (pktmbuf_alloc mp) m
                ∷ h in
              (value_of (free_reply ms d h') ≡ done tt)
              × Conserves (received a) (offered a) h (trace_of (free_reply ms d h'))
        by_reply m n [] = (refl, omega (arith, split_if (n == 0) (if m == a then 1 else 0)))
        by_reply m n (x ∷ ms) = (refl, omega (arith, split_if (n == 0) (if m == a then 1 else 0)))

    frees : RoundConserves (delivered a) (released a) (request_round mp)
    frees d h =
        let m = d.word (length h) (pktmbuf_alloc mp) in
        elim (Bool-cases (m == 0)) [
          | inl e ↦ rw e (refl, omega arith)
          | inr e ↦ rw e (by_reply m _ (d.burst _ (event_dequeue 0)))
        ]
      where
        by_reply :
            (m n : ℕ) (ms : List Mbuf)
            → let h' =
                burst_of (event_dequeue 0) ms
                ∷ word_of (event_enqueue 0 0 op_new (buffer m)) n
                ∷ word_of (pktmbuf_alloc mp) m
                ∷ h in
              (value_of (free_reply ms d h') ≡ done tt)
              × Conserves (delivered a) (released a) h (trace_of (free_reply ms d h'))
        by_reply m n [] = (refl, omega arith)
        by_reply m n (x ∷ ms) = (refl, omega arith)

reply_round-Conserves : (a : ℕ) → RoundConserves (offered a) (delivered a) reply_round
unfolding reply_round machine
reply_round-Conserves a d h = by_burst (d.burst (length h) (event_dequeue 1))
  where
    by_burst :
        (ms : List Mbuf)
        → (value_of (send_reply ms d (burst_of (event_dequeue 1) ms ∷ h)) ≡ done tt)
          × Conserves
              (offered a)
              (delivered a)
              h
              (trace_of (send_reply ms d (burst_of (event_dequeue 1) ms ∷ h)))
    by_burst [] = (refl, omega arith)
    by_burst (m ∷ ms) =
        let n = d.word (suc (length h)) (event_enqueue 1 1 op_new m) in
        (refl, omega (arith, split_if (n == 0) (if m.addr == a then 1 else 0)))

-- Where no set-up call fails and every link is made, the primary of ipc_eventdev sets its device up, sends and
-- receives in the documented order, and does not return. However long they run, from any trace: the primary
-- offers every buffer to the device as often as it allocated it, and frees every buffer as often as the
-- device delivered it, and the secondary offers every buffer as often as it was delivered. The device
-- accepts an offer or refuses it; what it refuses is lost, for nothing else is freed or offered.
pub ipc_eventdev-Conserves :
    (d : Driver) (rounds mp a : ℕ) (h : Trace)
    → Obliges d
    → a ≢ 0
    → Ends eventdev (Serves BothReady) (primary rounds d [])
      × Conserves
          (received a)
          (λ h. accepted a h + refused a h)
          h
          (trace_of (forever rounds (request_round mp) d h))
      × Conserves (delivered a) (released a) h (trace_of (forever rounds (request_round mp) d h))
      × Conserves
          (λ h. accepted a h + refused a h)
          (delivered a)
          h
          (trace_of (forever rounds reply_round d h))
ipc_eventdev-Conserves d rounds mp a h ok ne = (
  Rules.Triple-Ends (primary-Triple d ok rounds),
  (forever-Conserves _ _ rounds _ (request_round-Conserves mp a ne).0 d h).1,
  (forever-Conserves _ _ rounds _ (request_round-Conserves mp a ne).1 d h).1,
  (forever-Conserves _ _ rounds _ (reply_round-Conserves a) d h).1,
)

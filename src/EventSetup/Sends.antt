-- ===== src/EventSetup/Sends.antt =====
-- The loops of the programs around an event device: set-up calls for one number after another,
-- `while (rte_event_enqueue_burst(…) != 1) ;` and waiting for an event. Each loop runs for a number of rounds.
use dpdk_folder.Prelude.{
  ℕ, ℤ, zero, suc, pos, negsuc, ◌+◌, ◌≤◌, ◌==◌, ◌≡◌, refl, true, false, Bool, not, ◌&&◌, is_neg,
  if◌then◌else◌, List, [], ◌∷◌, Bool-cases, inl, inr, arith,
}
use dpdk_folder.Dpdk.{
  Mbuf, Driver, M, ◌>>=◌, ◌>>◌, pure, exit_if, ask_int, ask_word, ask_burst, still_running,
  event_enqueue, event_dequeue, event_port_setup, event_port_link, op_new, Outcome, done, returned,
  exited, running, caught,
}
use dpdk_folder.Dpdk.Lifecycle.{contains}
use dpdk_folder.Dpdk.Rules
use dpdk_folder.Dpdk.Rules.{Triple, Achieves}
use dpdk_folder.Ports.Queues.{add_queues}
use dpdk_folder.EventSetup.Device.{eventdev, EventState, fresh_device}

-- `ev.u64` and `ev.mbuf` are one field of a union.
abbrev pub u64_event : ℕ → Mbuf
u64_event n = record { addr = n; bytes = [] }

abbrev pub is_one : ℤ → Bool
is_one (pos n) = n == 1
is_one (negsuc n) = false

-- `for (i = …) if (setup(i) < 0) rte_exit(…);`
unfoldable pub setup_ports : (left i : ℕ) → M (Unit {0})
setup_ports zero i = pure tt
setup_ports (suc left) i = do
  ret ← ask_int (event_port_setup i)
  exit_if (is_neg ret)
  setup_ports left (i + 1)

-- `for (i = …) if (rte_event_port_link(…, i, queues, priorities, 1) != 1) rte_exit(…);`
unfoldable pub link_ports : (left i : ℕ) → M (Unit {0})
link_ports zero i = pure tt
link_ports (suc left) i = do
  ret ← ask_int (event_port_link i (0 ∷ []))
  exit_if (not (is_one ret))
  link_ports left (i + 1)

-- `while (rte_event_enqueue_burst(dev_id, 0, &ev, 1) != 1) ;` for an event to queue 0
unfoldable pub send : (rounds value : ℕ) → M (Unit {0})
send zero value = still_running
send (suc rounds) value = do
  n ← ask_word (event_enqueue 0 0 op_new (u64_event value))
  if n == 1 then pure tt else send rounds value

-- `while (rte_event_dequeue_burst(dev_id, port, &ev, 1, 0) == 0) …;` and the event that came
unfoldable pub await_event : (rounds port : ℕ) → M Mbuf
await_event zero port = still_running
await_event (suc rounds) port = do
  evs ← ask_burst (event_dequeue port)
  elim evs [ [] ↦ await_event rounds port | ev ∷ _ ↦ pure ev ]

-- Goes on in the same state, or waits still.
abbrev pub Waits : {A S : Type 0} → S → Outcome A → S → Type 0
Waits s (done _) s' = s' ≡ s
Waits s (returned _) s' = ⊥
Waits s exited s' = ⊥
Waits s running s' = s' ≡ s

module _ (d : Driver) (s : EventState) where
  pub send-Triple :
      (rounds value : ℕ)
      → s.started ≡ true
      → contains 0 s.ports ≡ true
      → contains 0 s.queues ≡ true
      → Triple d eventdev s (send rounds value) (Waits s)
  unfolding send
  send-Triple zero value up port queue = Rules.still_running-Triple refl
  send-Triple (suc rounds) value up port queue =
      Rules.ask_word_about-Triple _ _ refl (up, port, queue)
        λ n.
          let r = event_enqueue 0 0 op_new (u64_event value) in
          let again : Triple d eventdev s (if d.word n r == 1 then pure tt else send rounds value)
              (Waits s) =
            elim (Bool-cases (d.word n r == 1)) [
              | inl e ↦ rw e (Rules.pure-Triple _ refl)
              | inr e ↦ rw e (send-Triple rounds value up port queue)
            ] in
          elim (Bool-cases (d.word n r == 0)) [ inl e ↦ rw e again | inr e ↦ rw e again ]

  pub await_event-Triple :
      (rounds port : ℕ)
      → s.started ≡ true
      → contains port s.ports ≡ true
      → Triple d eventdev s (await_event rounds port) (Waits s)
  unfolding await_event
  await_event-Triple zero port up linked = Rules.still_running-Triple refl
  await_event-Triple (suc rounds) port up linked =
      Rules.ask_burst-Triple _ _ (up, linked)
        λ n. got (await_event-Triple rounds port up linked) (d.burst n (event_dequeue port))
    where
      got :
          Triple d eventdev s (await_event rounds port) (Waits s)
          → (evs : List Mbuf)
          → Triple d eventdev s
              (elim evs [ [] ↦ await_event rounds port | ev ∷ _ ↦ pure ev ])
              (Waits s)
      got rest [] = rest
      got rest (ev ∷ evs) = Rules.pure-Triple _ refl

pub setup_ports-Triple :
    (d : Driver) (left i : ℕ) (s : EventState)
    → s.configured ≡ true
    → s.started ≡ false
    → i + left ≤ s.nb_ports
    → Triple d eventdev s
        (setup_ports left i)
        (Achieves (λ s'. s' ≡ record s { ports = add_queues left i s.ports }))
unfolding setup_ports
setup_ports-Triple d zero i s conf stopped le = Rules.pure-Triple _ refl
setup_ports-Triple d (suc left) i s conf stopped le =
    Rules.ask_or_exit-Triple _ _ refl (conf, stopped, omega arith) tt
      (setup_ports-Triple d left (i + 1) (record s { ports = i ∷ s.ports }) conf stopped
        (omega arith))

-- Ports `i … i + left - 1` of the list.
abbrev pub all_from : (left i : ℕ) → List ℕ → Bool
all_from zero i js = true
all_from (suc left) i js = contains i js && all_from left (i + 1) js

-- Queue 0, as often as it is linked once more.
abbrev pub add_zeros : (left : ℕ) → List ℕ → List ℕ
add_zeros zero l = l
add_zeros (suc left) l = add_zeros left (0 ∷ l)

pub link_ports-Triple :
    (d : Driver) (left i : ℕ) (s : EventState)
    → all_from left i s.ports ≡ true
    → contains 0 s.queues ≡ true
    → Triple d eventdev s
        (link_ports left i)
        (Achieves (λ s'. s' ≡ record s { linked = add_zeros left s.linked }))
unfolding link_ports
link_ports-Triple d zero i s ports queue = Rules.pure-Triple _ refl
link_ports-Triple d (suc left) i s ports queue =
    Rules.ask_int-Triple _ _ refl (ground arith, ground arith)
      λ n.
        by_result
          (link_ports-Triple d left (i + 1) (record s { linked = 0 ∷ s.linked }) (ground arith)
            queue)
          (d.int n (event_port_link i (0 ∷ [])))
  where
    after : EventState
    after = record s { linked = add_zeros (suc left) s.linked }

    by_result :
        Triple d eventdev
          (record s { linked = 0 ∷ s.linked })
          (link_ports left (i + 1))
          (Achieves (λ s'. s' ≡ after))
        → (x : ℤ)
        → Triple d eventdev
            (if is_neg x then s else record s { linked = 0 ∷ s.linked })
            (exit_if (not (is_one x)) >> link_ports left (i + 1))
            (Achieves (λ s'. s' ≡ after))
    by_result rest (pos k) = Rules.exit_if-Triple _ _ (λ e. tt) (λ e. rest)
    by_result rest (negsuc k) = Rules.exit_if-Triple _ _ (λ e. tt) (λ e. cc)

-- How these programs end: by `return 0` with the device closed, by `rte_exit`, or not within the rounds,
-- while the device runs.
abbrev pub Closes : Outcome ℤ → EventState → Type 0
Closes (done x) s = (x ≡ pos 0) × (s ≡ fresh_device)
Closes (returned x) s = ⊥
Closes exited s = Unit {0}
Closes running s = s.started ≡ true

abbrev pub ClosesBody : Outcome ℤ → EventState → Type 0
ClosesBody o s = Closes (caught o) s

-- A loop that waits, before the rest of such a program.
module _ {A B : Type 0} {d : Driver} {s : EventState} {Post : Outcome B → EventState → Type 0} where
  pub then_waits-Triple :
      (m : M A) (k : M B)
      → Post running s
      → Triple d eventdev s m (Waits s)
      → Triple d eventdev s k Post
      → Triple d eventdev s (m >> k) Post
  then_waits-Triple m k up t next =
      Rules.then-Triple m k t (λ x s' l. absurd l) (λ s' l. absurd l) (λ s' e. rw e up)
        (λ a s' e. rw e next)

  pub bind_waits-Triple :
      (m : M A) (k : A → M B)
      → Post running s
      → Triple d eventdev s m (Waits s)
      → ((a : A) → Triple d eventdev s (k a) Post)
      → Triple d eventdev s (m >>= k) Post
  bind_waits-Triple m k up t next =
      Rules.bind-Triple m k t (λ x s' l. absurd l) (λ s' l. absurd l) (λ s' e. rw e up)
        (λ a s' e. rw e (next a))

-- ===== src/Ports/PortInit/AllPorts.antt =====
-- `main` of port_init/port_init.c, which brings up every port that RTE_ETH_FOREACH_DEV finds.
use dpdk_folder.Prelude.{
  ℕ, ℤ, zero, suc, ◌+◌, ◌-◌, ◌≤◌, ◌<◌, pos, ltb, ltb→lt, false, ◌==◌, ◌≡◌, ◌≢◌, ◌⊎◌, inl, inr, refl,
  arith, Bool-cases, eq_of_not-is_zero, [],
}
use dpdk_folder.Dpdk.{Driver, Outcome, done, returned, exited, running, find_next_port}
use dpdk_folder.Dpdk.Lifecycle.{ethdev, PortState, fresh_port}
use dpdk_folder.Dpdk.Rules
use dpdk_folder.Dpdk.Rules.{other_rules}
use dpdk_folder.Dpdk.Rules.{At, Ends, Triple, Keeps}
use dpdk_folder.Ports.Queues.{other_queues-Triple}
use dpdk_folder.Ports.PortInit.{port_init, init_ports, main}
use dpdk_folder.Ports.Each.{max_ethports}
use dpdk_folder.Ports.Each.Rounds.{Leaves, IsUpIfTouched, round-Triple}
use dpdk_folder.Ports.PortInit.Order.{port_init-Triple}

-- `port_init` leaves every other port alone.
port_init-other :
    (d : Driver) (p m q : ℕ) (s : PortState)
    → (p == q) ≡ false
    → Triple d (ethdev q) s (port_init p m) (Leaves s)
unfolding port_init
port_init-other d p m q s ne =
    Rules.function-Triple _
      (search (other_rules, Rules.then_keeps-Triple, other_queues-Triple) depth 24)

-- The loop returns early, or leaves the port untouched or ready; it does not run out of rounds.
abbrev pub UpIfTouched : {A : Type 0} → Outcome A → PortState → Type 0
UpIfTouched (done _) s = IsUpIfTouched s
UpIfTouched (returned x) s = x ≡ pos 1
UpIfTouched exited s = ⊥
UpIfTouched running s = ⊥

module _ (d : Driver) (forward : (n i : ℕ) → i ≤ d.word n (find_next_port i)) (m : ℕ) (pool : m ≢ 0)
    (q : ℕ) where
  init_ports-Triple :
      (rounds port_id : ℕ) (s : PortState)
      → max_ethports - port_id < rounds
      → (port_id ≤ q → s ≡ fresh_port)
      → IsUpIfTouched s
      → Triple d (ethdev q) s (init_ports rounds m port_id) UpIfTouched
  unfolding init_ports
  init_ports-Triple zero port_id s enough untouched up = elim enough [ ]
  init_ports-Triple (suc rounds) port_id s enough untouched up =
      elim (Bool-cases (ltb port_id max_ethports)) [
        | inl e ↦ rw e (
            Rules.bind-Triple _ _
              (round-Triple port_init d m q (port_init-Triple d q m pool)
                (λ p s e. port_init-other d p m q s e) port_id s untouched up)
              (λ x s' l. absurd l) (λ s' l. absurd l) (λ s' l. absurd l)
              λ ret s' after.
                Rules.return_if-Triple _ _ _ (λ _. refl)
                  λ z.
                    let (up', fresh') = after (eq_of_not-is_zero ret z) in
                    Rules.ask_word-Triple _ _ refl λ n.
                      let le : port_id + 1 ≤ d.word n (find_next_port (port_id + 1)) =
                        forward n _ in
                      init_ports-Triple rounds (d.word n (find_next_port (port_id + 1))) s'
                        (omega (arith, ltb→lt port_id max_ethports e)) (λ lt. fresh' (omega arith))
                        up')
        | inr e ↦ rw e (Rules.pure-Triple _ up)
      ]

-- The result is 0 only if the port is untouched or ready, and 1 otherwise; `main` returns.
abbrev pub MainUp : Outcome ℤ → PortState → Type 0
MainUp (done x) s = (x ≡ pos 1) ⊎ ((x ≡ pos 0) × IsUpIfTouched s)
MainUp _ s = ⊥

main-Triple :
    (d : Driver)
    → ((n i : ℕ) → i ≤ d.word n (find_next_port i))
    → (q : ℕ) → Triple d (ethdev q) fresh_port (main 33) MainUp
unfolding main
main-Triple d forward q = Rules.function-Triple _ (
    Rules.ask_int_other-Triple _ _ refl λ n.
      Rules.return_if-Triple _ _ _ (λ e. inl refl)
        λ e. Rules.ask_word-Triple _ _ refl λ n.
          Rules.return_if-Triple _ _ _ (λ e. inl refl)
            λ pool. Rules.then_word-Triple _ _ refl (
              Rules.ask_word-Triple _ _ refl λ n'.
                Rules.then-Triple _ _
                  (init_ports-Triple d forward _ (ground arith) q 33 _ fresh_port (omega arith)
                    (λ _. refl) (inl refl))
                  (λ x s' e. inl e) (λ s' l. absurd l) (λ s' l. absurd l)
                  λ _ s' up. Rules.pure-Triple _ (inr (refl, up))))

-- If `rte_eth_find_next_owned_by(i)` is never below `i`, as its documentation says, `main` returns
-- within 33 rounds of its loop, uses every port in the order that ethdev asks for, and returns 0 only
-- when each port is ready or was never touched, and 1 otherwise.
pub main-IsUp :
    (d : Driver)
    → ((n i : ℕ) → i ≤ d.word n (find_next_port i))
    → (q : ℕ) → Ends (ethdev q) MainUp (main 33 d [])
main-IsUp d forward q = Rules.Triple-Ends (main-Triple d forward q)

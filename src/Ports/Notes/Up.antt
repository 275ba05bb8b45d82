-- ===== src/Ports/Notes/Up.antt =====
-- main of port_init/notes.c, and the start of main of port_init2/main.c, bring up every port or exit.
use dpdk_folder.Prelude.{◌<◌, Bool, ℕ, ℤ, pos, ◌≡◌, ◌≢◌, ◌==◌, false, refl, arith, ==_refl, []}
use dpdk_folder.Dpdk.{Driver, Outcome, done, returned, exited, running}
use dpdk_folder.Dpdk.Lifecycle.{ethdev, PortState, fresh_port}
use dpdk_folder.Dpdk.Rules
use dpdk_folder.Dpdk.Rules.{other_rules}
use dpdk_folder.Dpdk.Rules.{At, Ends, Triple}
use dpdk_folder.Ports.Contract.{BringsUp}
use dpdk_folder.Ports.Queues.{
  rx_queues-Triple, tx_queues-Triple, then_queues-Triple, other_queues-Triple,
}
use dpdk_folder.Ports.Each.{init_or_exit}
use dpdk_folder.Ports.Each.{max_ethports}
use dpdk_folder.Ports.Each.Rounds.{Leaves}
use dpdk_folder.Ports.Each.Listed.{
  IsNext, Lists, IsUpIfListed, AllUpOrExits, first-Progress, init_or_exit-Triple,
}
use dpdk_folder.Ports.Notes.{port_init, main}
use dpdk_folder.Ports.PortInit2

port_init-Triple :
    (d : Driver) (p m : ℕ) → m ≢ 0 → Triple d (ethdev p) fresh_port (port_init p m) BringsUp
unfolding port_init
port_init-Triple d p m pool = Rules.function-Triple _ (
    Rules.ask_int_other-Triple _ _ refl λ valid.
      Rules.return_if-Triple _ _ _ (λ e. ground arith)
        λ e.
          Rules.ask_or_return-Triple _ _ _ (==_refl p) refl (λ x n. ground arith)
            λ x.
              then_queues-Triple p _ _
                (rx_queues-Triple d p m 1024 1 0 _ pool refl refl (omega arith))
                (λ x s n st. ground arith)
                (then_queues-Triple p _ _ (tx_queues-Triple d p 1024 1 0 _ refl refl (omega arith))
                  (λ x s n st. ground arith)
                  (Rules.ask_or_return-Triple _ _ _ (==_refl p) (refl, refl, refl)
                    (λ x n. ground arith)
                    λ x.
                      Rules.then_int_other-Triple _ _ refl (Rules.pure-Triple _ (ground arith)))))

port_init-other :
    (d : Driver) (p m q : ℕ) (s : PortState)
    → (p == q) ≡ false
    → Triple d (ethdev q) s (port_init p m) (Leaves s)
unfolding port_init
port_init-other d p m q s ne =
    Rules.function-Triple _
      (search (other_rules, Rules.then_keeps-Triple, other_queues-Triple) depth 24)

-- The function returns 0 with the port ready if it is listed and untouched if not, or has exited.
abbrev pub ReturnsUp : Bool → Outcome ℤ → PortState → Type 0
ReturnsUp listed (done x) s = (x ≡ pos 0) × IsUpIfListed listed s
ReturnsUp listed (returned x) s = ⊥
ReturnsUp listed exited s = Unit {0}
ReturnsUp listed running s = ⊥

main-Triple :
    (d : Driver) (listed : ℕ → Bool) (q : ℕ)
    → Lists d listed
    → q < max_ethports
    → Triple d (ethdev q) fresh_port (main 33) (ReturnsUp (listed q))
unfolding main
main-Triple d listed q lists small = Rules.function-Triple _ (
    Rules.ask_int_other-Triple _ _ refl λ n.
      Rules.exit_if-Triple _ _ (λ e. tt)
        λ e. Rules.ask_word-Triple _ _ refl λ n.
          Rules.exit_if-Triple _ _ (λ e. tt)
            λ pool. Rules.ask_word-Triple _ _ refl λ n'.
              let first = lists n' 0 (omega arith) in
              Rules.then-Triple _ _
                (init_or_exit-Triple port_init d _ q (port_init-Triple d q _ (ground arith))
                  (λ p s e. port_init-other d p _ q s e) listed 33 _ fresh_port lists small
                  (omega arith) first.found (first-Progress listed q _ small first))
                (λ x s' l. absurd l) (λ s' l. tt) (λ s' l. absurd l)
                λ _ s' up. Rules.pure-Triple _ (refl, up))

port_init2-Triple :
    (d : Driver) (p m : ℕ)
    → m ≢ 0
    → Triple d (ethdev p) fresh_port (PortInit2.port_init p m) BringsUp
port_init2-Triple d p m pool =
    Rules.weaken-Triple (PortInit2.Order.port_init-Triple d p m pool)
      (λ o s b. record { ends = b.ends; ready = b.ready })

port_init2-other :
    (d : Driver) (p m q : ℕ) (s : PortState)
    → (p == q) ≡ false
    → Triple d (ethdev q) s (PortInit2.port_init p m) (Leaves s)
unfolding PortInit2.port_init
port_init2-other d p m q s ne = Rules.function-Triple _ (search other_rules depth 20)

-- If rte_eth_find_next_owned_by finds the next listed port, as its documentation says: within 33 rounds,
-- main of port_init/notes.c returns 0 or exits, and the loop over the ports in main of port_init2/main.c,
-- from the first listed port on and with a pool that exists, ends or exits. Both use every port in the
-- order that ethdev asks for, and when they do not exit, every listed port is ready and no other port was
-- touched.
pub port_loops-BringUp :
    (d : Driver) (listed : ℕ → Bool) (q m first : ℕ)
    → Lists d listed
    → q < max_ethports
    → IsNext listed 0 first
    → m ≢ 0
    → Ends (ethdev q) (ReturnsUp (listed q)) (main 33 d [])
      × Ends (ethdev q) (AllUpOrExits (listed q)) (init_or_exit PortInit2.port_init 33 m first d [])
port_loops-BringUp d listed q m first lists small from pool = (
  Rules.Triple-Ends (main-Triple d listed q lists small),
  Rules.Triple-Ends (
      init_or_exit-Triple PortInit2.port_init d m q (port_init2-Triple d q m pool)
        (λ p s e. port_init2-other d p m q s e) listed 33 first fresh_port lists small (omega arith)
        from.found (first-Progress listed q first small from)),
)

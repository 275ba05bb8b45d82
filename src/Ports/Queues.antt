-- ===== src/Ports/Queues.antt =====
-- The loop `for (q = 0; q < n; q++) { ret = setup(q); if (ret < 0) return ret; }` of several programs.
use dpdk_folder.Prelude.{
  ℕ, zero, suc, ◌+◌, ◌≤◌, is_neg, true, false, List, ◌∷◌, ◌≡◌, ◌≢◌, refl, arith, ==_refl,
}
use dpdk_folder.Dpdk.{
  Driver, Request, rx_queue_setup, tx_queue_setup, Outcome, done, returned, exited, running, M,
  ◌>>=◌, ◌>>◌, pure, return_if, ask_int,
}
use dpdk_folder.Dpdk.Lifecycle.{ethdev, PortState, about}
use dpdk_folder.Dpdk.Rules
use dpdk_folder.Dpdk.Rules.{Triple, Keeps}

-- `left` rounds to go, the next for queue `q`.
unfoldable pub for_queues : (ℕ → Request) → (left q : ℕ) → M (Unit {0})
for_queues setup zero q = pure tt
for_queues setup (suc left) q = do
  ret ← ask_int (setup q)
  return_if (is_neg ret) ret
  for_queues setup left (q + 1)

-- The queues that `left` rounds from `q` on add to those that are ready.
abbrev pub add_queues : (left q : ℕ) → List ℕ → List ℕ
add_queues zero q js = js
add_queues (suc left) q js = add_queues left (q + 1) (q ∷ js)

-- The loop ends in state `s₁`, or returns a negative error and leaves a port that does not run.
abbrev pub Leads : PortState → Outcome (Unit {0}) → PortState → Type 0
Leads s₁ (done _) s' = s' ≡ s₁
Leads s₁ (returned x) s' = (is_neg x ≡ true) × (s'.started ≡ false)
Leads s₁ exited s' = ⊥
Leads s₁ running s' = ⊥

pub rx_queues-Triple :
    (d : Driver) (p m nb_desc left q : ℕ) (s : PortState)
    → m ≢ 0
    → s.configured ≡ true
    → s.started ≡ false
    → q + left ≤ s.nb_rx
    → Triple d
        (ethdev p)
        s
        (for_queues (λ i. rx_queue_setup p i nb_desc m) left q)
        (Leads (record s { rx_ready = add_queues left q s.rx_ready }))
unfolding for_queues
rx_queues-Triple d p m nb_desc zero q s pool conf stopped le = Rules.pure-Triple _ refl
rx_queues-Triple d p m nb_desc (suc left) q s pool conf stopped le =
    Rules.ask_or_return-Triple _ _ _ (==_refl p) (conf, stopped, omega arith, pool)
      (λ x n. (n, stopped))
      λ x.
        rx_queues-Triple d p m nb_desc left (q + 1) (record s { rx_ready = q ∷ s.rx_ready }) pool
          conf stopped (omega arith)

pub tx_queues-Triple :
    (d : Driver) (p nb_desc left q : ℕ) (s : PortState)
    → s.configured ≡ true
    → s.started ≡ false
    → q + left ≤ s.nb_tx
    → Triple d
        (ethdev p)
        s
        (for_queues (λ i. tx_queue_setup p i nb_desc) left q)
        (Leads (record s { tx_ready = add_queues left q s.tx_ready }))
unfolding for_queues
tx_queues-Triple d p nb_desc zero q s conf stopped le = Rules.pure-Triple _ refl
tx_queues-Triple d p nb_desc (suc left) q s conf stopped le =
    Rules.ask_or_return-Triple _ _ _ (==_refl p) (conf, stopped, omega arith) (λ x n. (n, stopped))
      λ x.
        tx_queues-Triple d p nb_desc left (q + 1) (record s { tx_ready = q ∷ s.tx_ready }) conf
          stopped (omega arith)

-- The loop before the rest of a function.
pub then_queues-Triple :
    {B : Type 0} {d : Driver} (p : ℕ) {s s₁ : PortState} {Post : Outcome B → PortState → Type 0}
    (m : M (Unit {0})) (k : M B)
    → Triple d (ethdev p) s m (Leads s₁)
    → ((x : _) (s' : PortState) → is_neg x ≡ true → s'.started ≡ false → Post (returned x) s')
    → Triple d (ethdev p) s₁ k Post
    → Triple d (ethdev p) s (m >> k) Post
then_queues-Triple p m k t fails next =
    Rules.then-Triple m k t (λ x s' l. fails x s' l.0 l.1) (λ s' l. absurd l) (λ s' l. absurd l)
      (λ a s' e. rw e next)

-- The loop does nothing to a port that its calls are not about.
pub other_queues-Triple :
    (d : Driver) (q' : ℕ) (setup : ℕ → Request) (left q : ℕ) (s : PortState)
    → ((i : ℕ) → about q' (setup i) ≡ false)
    → Triple d (ethdev q') s (for_queues setup left q) (Keeps s)
unfolding for_queues
other_queues-Triple d q' setup zero q s other = Rules.pure-Triple _ refl
other_queues-Triple d q' setup (suc left) q s other = Rules.ask_int_other-Triple _ _ (other q) λ n.
    Rules.return_if-Triple _ _ _ (λ e. refl)
      λ e. other_queues-Triple d q' setup left (q + 1) s other

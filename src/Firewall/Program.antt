-- ===== src/Firewall/Program.antt =====
-- `port_init`, `build_acl` and main of ACL_DPDK_2/main.c.
use dpdk_folder.Prelude.{
  ℕ, ℤ, zero, suc, pos, negsuc, is_neg, is_zero, not, true, ltb, ◌==◌, if◌then◌else◌, ◌≢◌, ◌≡◌,
  refl, ap, eq_of_not-is_zero, arith, ==_refl, List, [], ◌∷◌, length, Bool-cases, inl, inr, ◌<◌,
}
use dpdk_folder.Dpdk.{
  Mbuf, M, Driver, Outcome, done, ◌>>=◌, ◌>>◌, pure, return_if, function, ask_int, ask_word, run,
  eal_init, eal_cleanup, dev_count_avail, pool_create, dev_configure, rx_queue_setup,
  tx_queue_setup, dev_start, dev_stop, promiscuous_enable, acl_create, acl_add_rules, acl_build,
  acl_free, rx_burst,
}
use dpdk_folder.Dpdk.Lifecycle.{ethdev, PortState, fresh_port}
use dpdk_folder.Dpdk.Rules
use dpdk_folder.Dpdk.Rules.{At, Ends, Triple, Completes}
use dpdk_folder.Ports.Contract.{BringsUpOrNot, is_done}
use dpdk_folder.Firewall.Loop.{firewall_loop, firewall_round, filter_burst}

unfoldable pub port_init : (port mbuf_pool : ℕ) → M ℤ
port_init port mbuf_pool = function do
  configured ← ask_int (dev_configure port 1 1)
  return_if (not (is_zero configured)) (negsuc 0)
  rx ← ask_int (rx_queue_setup port 0 1024 mbuf_pool)
  return_if (is_neg rx) (negsuc 0)
  tx ← ask_int (tx_queue_setup port 0 1024)
  return_if (is_neg tx) (negsuc 0)
  started ← ask_int (dev_start port)
  return_if (is_neg started) (negsuc 0)
  ask_int (promiscuous_enable port)
  pure (pos 0)

-- 0 is NULL. The context is not freed where adding the rules or building fails.
unfoldable pub build_acl : M ℕ
build_acl = do
  ctx ← ask_word (acl_create "fw_acl" 32)
  if ctx == 0 then pure 0 else (do
    ret ← ask_int (acl_add_rules ctx 2)
    if not (is_zero ret)
        then pure 0
        else (do built ← ask_int (acl_build ctx); pure (if is_zero built then ctx else 0)))

unfoldable pub main : (classify : List ℕ → ℕ) (rounds : ℕ) → M ℤ
main classify rounds = function do
  ret ← ask_int eal_init
  return_if (is_neg ret) (negsuc 0)
  mbuf_pool ← ask_word (pool_create "MBUF_POOL" 8192 256)
  return_if (mbuf_pool == 0) (negsuc 0)
  ports ← ask_word dev_count_avail
  return_if (ltb ports 1) (negsuc 0)
  initialised ← port_init 0 mbuf_pool
  return_if (not (is_zero initialised)) (negsuc 0)
  acl ← build_acl
  return_if (acl == 0) (negsuc 0)
  firewall_loop classify 0 rounds
  run (acl_free acl)
  ask_int (dev_stop 0)
  ask_int eal_cleanup
  pure (pos 0)

port_init-Triple :
    (d : Driver) (p m : ℕ) → m ≢ 0 → Triple d (ethdev p) fresh_port (port_init p m) BringsUpOrNot
unfolding port_init
port_init-Triple d p m pool = Rules.function-Triple _ (
    Rules.ask_zero_or_return-Triple _ _ _ (==_refl p) refl (λ n. ground arith)
      (Rules.ask_or_return-Triple _ _ _ (==_refl p) (refl, refl, omega arith, pool)
        (λ x n. ground arith)
        λ x.
          Rules.ask_or_return-Triple _ _ _ (==_refl p) (refl, refl, omega arith)
            (λ x n. ground arith)
            λ x.
              Rules.ask_or_return-Triple _ _ _ (==_refl p) (refl, refl, refl) (λ x n. ground arith)
                λ x. Rules.then_int_other-Triple _ _ refl (Rules.pure-Triple _ (ground arith))))

module _ (classify : List ℕ → ℕ) (d : Driver) (p : ℕ) where
  filter_burst-Triple :
      (s : PortState) (ms : List Mbuf)
      → Triple d (ethdev p) s (filter_burst classify ms) (Completes s)
  unfolding filter_burst
  filter_burst-Triple s [] = Rules.pure-Triple _ refl
  filter_burst-Triple s (m ∷ ms) = elim (Bool-cases (classify m.bytes == 1)) [
    | inl e ↦
        rw e (
          Rules.bind_completes-Triple _ _ (filter_burst-Triple s ms) λ tx. Rules.pure-Triple _ refl)
    | inr e ↦ rw e (Rules.then_run-Triple _ _ refl (filter_burst-Triple s ms))
  ]

  module _ (s : PortState) (up : s.started ≡ true) (rx : 0 < s.nb_rx) (tx : 0 < s.nb_tx) where
    firewall_round-Triple : Triple d (ethdev p) s (firewall_round classify p) (Completes s)
    unfolding firewall_round
    firewall_round-Triple =
        Rules.ask_burst-Triple _ _ (up, rx)
          λ n.
            let ms = d.burst n (rx_burst p 0 32) in
            elim (Bool-cases (length ms == 0)) [
              | inl e ↦ rw e (Rules.pure-Triple _ refl)
              | inr e ↦ rw e (
                  Rules.bind_completes-Triple _ _ (filter_burst-Triple s ms) λ tx_bufs.
                    elim (Bool-cases (length tx_bufs == 0)) [
                      | inl z ↦ rw z (Rules.pure-Triple _ refl)
                      | inr z ↦ rw z (
                          Rules.then_word_about-Triple _ _ (==_refl p) refl (up, tx)
                            (Rules.pure-Triple _ refl))
                    ])
            ]

    firewall_loop-Triple :
        (rounds : ℕ) → Triple d (ethdev p) s (firewall_loop classify p rounds) (Completes s)
    unfolding firewall_loop
    firewall_loop-Triple zero = Rules.pure-Triple _ refl
    firewall_loop-Triple (suc rounds) =
        Rules.then_completes-Triple _ _ firewall_round-Triple (firewall_loop-Triple rounds)

build_acl-Triple :
    (d : Driver) (p : ℕ) (s : PortState) → Triple d (ethdev p) s build_acl (Completes s)
unfolding build_acl
build_acl-Triple d p s = Rules.ask_word-Triple _ _ refl λ n.
    elim (Bool-cases (d.word n (acl_create "fw_acl" 32) == 0)) [
      | inl e ↦ rw e (Rules.pure-Triple _ refl)
      | inr e ↦ rw e (
          Rules.ask_int_other-Triple _ _ refl λ k.
            elim (Bool-cases
              (not (is_zero (d.int k (acl_add_rules (d.word n (acl_create "fw_acl" 32)) 2))))) [
                | inl z ↦ rw z (Rules.pure-Triple _ refl)
                | inr z ↦ rw z (Rules.ask_int_other-Triple _ _ refl λ j. Rules.pure-Triple _ refl)
              ])
    ]

-- The process ends by itself.
abbrev pub Returns : Outcome ℤ → PortState → Type 0
Returns o s = is_done o ≡ true

main-Triple :
    (classify : List ℕ → ℕ) (d : Driver) (rounds : ℕ)
    → Triple d (ethdev 0) fresh_port (main classify rounds) Returns
unfolding main
main-Triple classify d rounds = Rules.function-Triple _ (
    Rules.ask_int_other-Triple _ _ refl λ n.
      Rules.return_if-Triple _ _ _ (λ e. refl)
        λ e. Rules.ask_word-Triple _ _ refl λ m.
          Rules.return_if-Triple _ _ _ (λ e. refl)
            λ e. Rules.ask_word-Triple _ _ refl λ n'.
              Rules.return_if-Triple _ _ _ (λ e. refl)
                λ e'.
                  Rules.bind-Triple _ _ (port_init-Triple d 0 _ (ground arith)) (λ x s' b. refl)
                    (λ s' b. cc) (λ s' b. cc)
                    λ x s' b.
                      Rules.return_if-Triple _ _ _ (λ e. refl)
                        λ z.
                          let ready = b.ready (ap done (eq_of_not-is_zero x z)) in
                          Rules.bind_completes-Triple _ _ (build_acl-Triple d 0 s') λ acl.
                            Rules.return_if-Triple _ _ _ (λ e. refl)
                              λ e''.
                                Rules.then_completes-Triple _ _
                                  (firewall_loop-Triple classify d 0 s' ready.started
                                    (omega (arith, ready.one_rx)) (omega (arith, ready.one_tx))
                                    rounds)
                                  (Rules.then_run-Triple _ _ refl (
                                    Rules.then_int-Triple _ _ refl tt λ s''.
                                      Rules.then_int_other-Triple _ _ refl
                                        (Rules.pure-Triple _ refl))))

-- For every driver and every classifier, main of ACL_DPDK_2/main.c returns once a signal has ended its
-- loop, and uses port 0 in the order that ethdev asks for: it receives and sends on a started port only.
pub firewall_main-Returns :
    (classify : List ℕ → ℕ) (d : Driver) (rounds : ℕ)
    → Ends (ethdev 0) Returns (main classify rounds d [])
firewall_main-Returns classify d rounds = Rules.Triple-Ends (main-Triple classify d rounds)

-- ===== src/Parsing/RxLoop/Loop.antt =====
-- The loop of port_init2/rx_loop.c.
use dpdk_folder.Prelude.{
  ℕ, ◌==◌, if◌then◌else◌, Option, List, [], ◌∷◌, length, ◌≡◌, refl, arith, Bool-cases, inl, inr,
  map, ==_iff,
}
use dpdk_folder.Dpdk.{
  Mbuf, Driver, Trace, rx_burst, pktmbuf_free, M, ◌>>=◌, ◌>>◌, pure, ask_burst, run, machine,
  burst_of, did, done, running, trace_of, value_of,
}
use dpdk_folder.Dpdk.Loops.{forever, RoundIsBalanced, forever-IsBalanced}
use dpdk_folder.Dpdk.Ownership.{count, count_of_length, IsBalanced}
use dpdk_folder.Dpdk.Bursts.{frees, received-frees, released-frees}
use dpdk_folder.Parsing.Reader.{Line}
use dpdk_folder.Parsing.RxLoop.{PacketType, show_packet, rewrite_mac}

module _ (types : Mbuf → PacketType) where
  unfoldable pub show_and_free : List Mbuf → M (List (Option (List Line)))
  show_and_free [] = pure []
  show_and_free (m ∷ ms) = do
    let shown = show_packet (types m) m.bytes
    run (pktmbuf_free (rewrite_mac m))
    rest ← show_and_free ms
    pure (shown ∷ rest)

  -- The body of `while (1)`.
  unfoldable pub rx_round : (port_id : ℕ) → M (Unit {0})
  rx_round port_id = do
    rx_pkts ← ask_burst (rx_burst port_id 0 32)
    if length rx_pkts == 0 then pure tt else (do show_and_free rx_pkts; pure tt)

  unfoldable pub rx_loop : (port_id rounds : ℕ) → M (Unit {0})
  rx_loop port_id rounds = forever rounds (rx_round port_id)

  show_and_free-eq-frees :
      (ms : List Mbuf) (d : Driver) (h : Trace)
      → show_and_free ms d h
        ≡ (done (map (λ m. show_packet (types m) m.bytes) ms), frees (map rewrite_mac ms) h)
  unfolding show_and_free machine
  show_and_free-eq-frees [] d h = refl
  show_and_free-eq-frees (m ∷ ms) d h =
      rw (show_and_free-eq-frees ms d (did (pktmbuf_free (rewrite_mac m)) ∷ h))

  count-rewrite : (a : ℕ) (ms : List Mbuf) → count a (map rewrite_mac ms) ≡ count a ms
  unfolding rewrite_mac
  count-rewrite a [] = refl
  count-rewrite a (m ∷ ms) = omega (arith, count-rewrite a ms)

  rx_round-IsBalanced : (port_id : ℕ) → RoundIsBalanced (rx_round port_id)
  unfolding rx_round machine
  rx_round-IsBalanced port_id d h =
      let ms = d.burst (length h) (rx_burst port_id 0 32) in
      let h₁ = burst_of (rx_burst port_id 0 32) ms ∷ h in
      elim (Bool-cases (length ms == 0)) [
        | inl e ↦ rw e (refl, λ a. omega (arith, count_of_length a ms ((==_iff _ 0).0 e)))
        | inr e ↦
            rw (e, show_and_free-eq-frees ms d h₁)
              (
                refl,
                λ a. omega (
                  arith,
                  received-frees a (map rewrite_mac ms) h₁,
                  released-frees a (map rewrite_mac ms) h₁,
                  count-rewrite a ms,
                ),
              )
      ]

  -- However long it runs, the loop never ends by itself, and gives back every buffer that it gets,
  -- as often as it gets it.
  pub rx_loop-IsBalanced :
      (port_id rounds : ℕ) (d : Driver) (h : Trace)
      → (value_of (rx_loop port_id rounds d h) ≡ running)
        × IsBalanced h (trace_of (rx_loop port_id rounds d h))
  unfolding rx_loop
  rx_loop-IsBalanced port_id rounds d h =
      forever-IsBalanced rounds (rx_round port_id) (rx_round-IsBalanced port_id) d h

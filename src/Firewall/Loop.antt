-- ===== src/Firewall/Loop.antt =====
-- `firewall_loop` of ACL_DPDK_2/main.c. The result of `rte_acl_classify` for a frame is a parameter.
use dpdk_folder.Prelude.{
  ℕ, zero, suc, ◌+◌, ◌<◌, ◌==◌, if◌then◌else◌, some, List, [], ◌∷◌, length, drop, ◌≡◌, refl, arith,
  ==_iff, Bool-cases, inl, inr, eq_nil_of_length,
}
use dpdk_folder.Dpdk.{
  Mbuf, Driver, Trace, done, M, ◌>>=◌, ◌>>◌, pure, run, ask_burst, ask_word, rx_burst, tx_burst,
  pktmbuf_free, burst_of, did, trace_of, value_of, machine,
}
use dpdk_folder.Dpdk.Bursts.{frees, received-frees, released-frees}
use dpdk_folder.Dpdk.Ownership.{count, received, released, count-take-drop, count_of_length}
use dpdk_folder.Parsing.Reader.{byte}
use dpdk_folder.Firewall.Rules.{AclRule, firewall_rules, action_allow}
use dpdk_folder.Firewall.Match.{IsClassifier, classify-ipv4_frame}

-- A frame with the EtherType of IPv4, and the first two bytes of what follows it.
pub record IsIpv4 (frame : List ℕ) : Type 0 where
  pub third : ℕ
  pub fourth : ℕ
  pub b12 : byte frame 12 ≡ some 8
  pub b13 : byte frame 13 ≡ some 0
  pub b14 : byte frame 14 ≡ some third
  pub b15 : byte frame 15 ≡ some fourth
  pub lt14 : third < 256
  pub lt15 : fourth < 256

abbrev pub AllIpv4 : List Mbuf → Type 0
AllIpv4 [] = Unit {0}
AllIpv4 (m ∷ ms) = IsIpv4 m.bytes × AllIpv4 ms

module _ (classify : List ℕ → ℕ) where
  -- The loop over the burst: what it puts into `tx_bufs`. The rest is freed.
  unfoldable pub filter_burst : List Mbuf → M (List Mbuf)
  filter_burst [] = pure []
  filter_burst (m ∷ ms) =
      let rest = filter_burst ms in
      if classify m.bytes == action_allow
      then (rest >>= λ tx_bufs. pure (m ∷ tx_bufs))
      else (run (pktmbuf_free m) >> rest)

  unfoldable pub firewall_round : (port : ℕ) → M (Unit {0})
  firewall_round port = do
    rx_bufs ← ask_burst (rx_burst port 0 32)
    if length rx_bufs == 0 then pure tt else (do
      tx_bufs ← filter_burst rx_bufs
      if length tx_bufs == 0 then pure tt else (do ask_word (tx_burst port 0 tx_bufs); pure tt))

  -- `while (g_keep_running)`; a signal clears the flag after so many rounds.
  unfoldable pub firewall_loop : (port rounds : ℕ) → M (Unit {0})
  firewall_loop port zero = pure tt
  firewall_loop port (suc rounds) = do firewall_round port; firewall_loop port rounds

  -- The packets of a burst that the classifier allows, and the others.
  abbrev pub allowed : List Mbuf → List Mbuf
  allowed [] = []
  allowed (m ∷ ms) = if classify m.bytes == 1 then m ∷ allowed ms else allowed ms

  abbrev pub denied : List Mbuf → List Mbuf
  denied [] = []
  denied (m ∷ ms) = if classify m.bytes == 1 then denied ms else m ∷ denied ms

  count-allowed : (a : ℕ) (ms : List Mbuf) → count a (allowed ms) + count a (denied ms) ≡ count a ms
  count-allowed a [] = omega arith
  count-allowed a (m ∷ ms) = elim (Bool-cases (classify m.bytes == 1)) [
    | inl e ↦ rw e (omega (arith, count-allowed a ms))
    | inr e ↦ rw e (omega (arith, count-allowed a ms))
  ]

  filter_burst-eq-frees :
      (ms : List Mbuf) (d : Driver) (h : Trace)
      → filter_burst ms d h ≡ (done (allowed ms), frees (denied ms) h)
  unfolding filter_burst machine
  filter_burst-eq-frees [] d h = refl
  filter_burst-eq-frees (m ∷ ms) d h = elim (Bool-cases (classify m.bytes == 1)) [
    | inl e ↦ rw (e, filter_burst-eq-frees ms d h)
    | inr e ↦ rw (e, filter_burst-eq-frees ms d (did (pktmbuf_free m) ∷ h))
  ]

  module _ (port : ℕ) (d : Driver) (h : Trace) where
    abbrev burst : List Mbuf
    burst = d.burst (length h) (rx_burst port 0 32)

    abbrev after_frees : Trace
    after_frees = frees (denied burst) (burst_of (rx_burst port 0 32) burst ∷ h)

    abbrev taken : ℕ
    taken = d.word (length after_frees) (tx_burst port 0 (allowed burst))

    -- A round returns; of the packets of its burst it gives back all, as often as it got them, except
    -- the allowed packets that the port does not take, which are lost.
    pub firewall_round_loses_unsent :
        (a : ℕ)
        → (value_of (firewall_round port d h) ≡ done tt)
          × (received a (trace_of (firewall_round port d h)) ≡ count a burst + received a h)
          × (released a (trace_of (firewall_round port d h)) + count a (drop taken (allowed burst))
              ≡ count a burst + released a h)
    unfolding firewall_round machine
    firewall_round_loses_unsent a =
        let h₁ = burst_of (rx_burst port 0 32) burst ∷ h in
        let parts = count-take-drop a taken (allowed burst) in
        let sorts = count-allowed a burst in
        let came = received-frees a (denied burst) h₁ in
        let freed = released-frees a (denied burst) h₁ in
        elim (Bool-cases (length burst == 0)) [
          | inl e ↦
              let empty = count_of_length a burst ((==_iff (length burst) 0).0 e) in
              rw e (refl, omega (arith, empty), omega (arith, empty, parts, sorts))
          | inr e ↦
              rw (e, filter_burst-eq-frees burst d h₁)
                (elim (Bool-cases (length (allowed burst) == 0)) [
                  | inl z ↦
                      let empty =
                        count_of_length a (allowed burst)
                          ((==_iff (length (allowed burst)) 0).0 z) in
                      rw z (refl, omega (arith, came), omega (arith, freed, empty, parts, sorts))
                  | inr z ↦ rw z (refl, omega (arith, came), omega (arith, freed, parts, sorts))
                ])
        ]

module _ (classify : List AclRule → List ℕ → ℕ) (ok : IsClassifier classify) where
  none_allowed :
      (ms : List Mbuf)
      → AllIpv4 ms
      → (allowed (classify firewall_rules) ms ≡ []) × (denied (classify firewall_rules) ms ≡ ms)
  none_allowed [] all = (refl, refl)
  none_allowed (m ∷ ms) all =
      let i = all.0 in
      let no =
        classify-ipv4_frame m.bytes i.third i.fourth i.b12 i.b13 i.b14 i.b15 i.lt14 i.lt15 classify
          ok in
      let (left, right) = none_allowed ms all.1 in
      elim (Bool-cases (classify firewall_rules m.bytes == 1)) [
        | inl e ↦ absurd (no ((==_iff _ 1).0 e))
        | inr e ↦ rw (e, left, right) (refl, refl)
      ]

  -- With any documented classifier and the rules of `build_acl`, the firewall frees every packet of a
  -- burst of IPv4 frames and sends none, whatever their addresses and ports.
  pub firewall_round_blocks_ipv4 :
      (port : ℕ) (d : Driver) (h : Trace)
      → AllIpv4 (d.burst (length h) (rx_burst port 0 32))
      → trace_of (firewall_round (classify firewall_rules) port d h)
        ≡ frees
            (d.burst (length h) (rx_burst port 0 32))
            (burst_of (rx_burst port 0 32) (d.burst (length h) (rx_burst port 0 32)) ∷ h)
  unfolding firewall_round machine
  firewall_round_blocks_ipv4 port d h all =
      let ms = d.burst (length h) (rx_burst port 0 32) in
      let (left, right) = none_allowed ms all in
      elim (Bool-cases (length ms == 0)) [
        | inl e ↦ rw (e, eq_nil_of_length ms ((==_iff (length ms) 0).0 e))
        | inr e ↦ rw (
          e,
          filter_burst-eq-frees (classify firewall_rules) ms d
              (burst_of (rx_burst port 0 32) ms ∷ h),
          left,
          right,
        )
      ]

-- ===== src/Vhost/Owners.antt =====
-- Where the buffers go.
use dpdk_folder.Prelude.{
  ℕ, pos, ◌+◌, ◌==◌, ◌≡◌, ◌≢◌, false, ◌≤◌, refl, arith, is_neg, List, [], ◌∷◌, length, Bool-cases,
  ==_iff, inl, inr, ◌⊎◌,
}
use dpdk_folder.Dpdk.{
  Mbuf, Driver, Trace, done, running, exited, int_of, word_of, burst_of, value_of, trace_of,
  eal_init, pool_create, dev_configure, rx_queue_setup, tx_queue_setup, dev_start, rx_burst,
  tx_burst, pktmbuf_alloc, machine,
}
use dpdk_folder.Dpdk.Ownership.{received, released, IsBalanced}
use dpdk_folder.Dpdk.Loops.{still_runs, forever, forever_at-Conserves}
use dpdk_folder.Vhost.Programs.{store_eth, eth, consume, tx_main, vhost_round, vhost_main}

-- What ethdev documents of its bursts of one packet: no more is received, and no more is sent.
abbrev pub TakesOne : Driver → Type 0
TakesOne d =
    ((n : ℕ) → length (d.burst n (rx_burst 0 0 1)) ≤ 1)
    × ((n : ℕ) (m : Mbuf) → d.word n (tx_burst 0 0 (m ∷ [])) ≤ 1)

-- Every allocation of a buffer succeeds.
abbrev pub Allocates : Driver → Type 0
Allocates d = (n pool : ℕ) → d.word n (pktmbuf_alloc pool) ≢ 0

vhost_round_lem :
    (a : ℕ) (d : Driver) (h : Trace)
    → ((n : ℕ) → length (d.burst n (rx_burst 0 0 1)) ≤ 1)
    → (value_of (vhost_round d h) ≡ done tt)
      × (received a (trace_of (vhost_round d h)) + released a h
          ≡ received a h + released a (trace_of (vhost_round d h)))
unfolding vhost_round machine
vhost_round_lem a d h one = go (d.burst (length h) (rx_burst 0 0 1)) (one (length h))
  where
    go :
        (ms : List Mbuf)
        → length ms ≤ 1
        → (value_of (consume ms d (burst_of (rx_burst 0 0 1) ms ∷ h)) ≡ done tt)
          × (received a (trace_of (consume ms d (burst_of (rx_burst 0 0 1) ms ∷ h))) + released a h
              ≡ received a h
                + released a (trace_of (consume ms d (burst_of (rx_burst 0 0 1) ms ∷ h))))
    go [] le = (refl, omega arith)
    go (m ∷ []) le = (refl, omega arith)
    go (m ∷ m' ∷ ms) le = absurd (omega arith)

tx_main-Balances :
    (a : ℕ) (d : Driver)
    → ((n : ℕ) (m : Mbuf) → d.word n (tx_burst 0 0 (m ∷ [])) ≤ 1)
    → ((n pool : ℕ) → d.word n (pktmbuf_alloc pool) ≢ 0)
    → ((value_of (tx_main d []) ≡ exited) ⊎ (value_of (tx_main d []) ≡ done (pos 0)))
      × (received a (trace_of (tx_main d [])) ≡ released a (trace_of (tx_main d [])))
unfolding tx_main store_eth machine
tx_main-Balances a d one had =
    let ret = d.int 0 eal_init in
    let pool = d.word 1 (pool_create "VIRTIO_POOL" 512 0) in
    let m : ℕ = d.word 5 (pktmbuf_alloc pool) in
    let packet : Mbuf = record { addr = m; bytes = eth } in
    let there : (m == 0) ≡ false = ground (arith, had 5 pool) in
    let sent : ℕ = d.word 6 (tx_burst 0 0 (packet ∷ [])) in
    elim (Bool-cases (is_neg ret)) [
      | inl e ↦ rw e (inl refl, refl)
      | inr e ↦ elim (Bool-cases (pool == 0)) [
        | inl f ↦ rw (e, f) (inl refl, refl)
        | inr f ↦ elim (Bool-cases (sent == 1)) [
          | inl g ↦
              let s : sent ≡ 1 = (==_iff sent 1).0 g in rw (e, f, there, s) (inr refl, omega arith)
          | inr g ↦
              let s : sent ≡ 0 = ground (arith, one 6 packet) in
              rw (e, f, there, s) (inr refl, omega arith)
        ]
      ]
    ]

vhost_main-Balances :
    (rounds a : ℕ) (d : Driver)
    → ((n : ℕ) → length (d.burst n (rx_burst 0 0 1)) ≤ 1)
    → ((value_of (vhost_main rounds d []) ≡ exited) ⊎ (value_of (vhost_main rounds d []) ≡ running))
      × (received a (trace_of (vhost_main rounds d []))
          ≡ released a (trace_of (vhost_main rounds d [])))
unfolding vhost_main machine
vhost_main-Balances rounds a d one =
    let ret = d.int 0 eal_init in
    let pool = d.word 1 (pool_create "VHOST_POOL" 1024 0) in
    let h : Trace =
      int_of (dev_start 0) (d.int 5 (dev_start 0))
      ∷ int_of (tx_queue_setup 0 0 64) (d.int 4 (tx_queue_setup 0 0 64))
      ∷ int_of (rx_queue_setup 0 0 64 pool) (d.int 3 (rx_queue_setup 0 0 64 pool))
      ∷ int_of (dev_configure 0 1 1) (d.int 2 (dev_configure 0 1 1))
      ∷ word_of (pool_create "VHOST_POOL" 1024 0) pool
      ∷ int_of eal_init ret
      ∷ [] in
    let (still, balance) =
      forever_at-Conserves (received a) (released a) rounds vhost_round d
        (λ h. vhost_round_lem a d h one) h in
    elim (Bool-cases (is_neg ret)) [
      | inl e ↦ rw e (inl refl, refl)
      | inr e ↦ elim (Bool-cases (pool == 0)) [
        | inl f ↦ rw (e, f) (inl refl, refl)
        | inr f ↦
            rw (e, f, still_runs (forever rounds vhost_round) d h still)
              (inr refl, omega (arith, balance))
      ]
    ]

-- For every driver that takes and gives one packet at most where one is asked for and that has a buffer for
-- main of vhost/tx.c, which does not look whether it got one: main of vhost/tx.c
-- exits or returns 0, main of vhost/vhost.c exits or is still in its loop, and both have given back, sent
-- or freed, each buffer as often as it came.
pub vhost_mains-Balance :
    (rounds : ℕ) (d : Driver)
    → TakesOne d
    → Allocates d
    → ((value_of (tx_main d []) ≡ exited) ⊎ (value_of (tx_main d []) ≡ done (pos 0)))
      × IsBalanced [] (trace_of (tx_main d []))
      × ((value_of (vhost_main rounds d []) ≡ exited)
          ⊎ (value_of (vhost_main rounds d []) ≡ running))
      × IsBalanced [] (trace_of (vhost_main rounds d []))
vhost_mains-Balance rounds d one had = (
  (tx_main-Balances 0 d one.1 had).0,
  (λ a. omega (arith, (tx_main-Balances a d one.1 had).1)),
  (vhost_main-Balances rounds 0 d one.0).0,
  (λ a. omega (arith, (vhost_main-Balances rounds a d one.0).1)),
)

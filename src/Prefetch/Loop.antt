-- ===== src/Prefetch/Loop.antt =====
-- `lcore_main` and what it does with its packets. The loops over a burst only read: `process_packet` looks
-- at the EtherType and uses it for nothing. They are in Prefetch/Schedule.antt, and the counter in
-- Prefetch/Rate.antt.
use dpdk_folder.Prelude.{
  ℕ, zero, suc, ◌==◌, if◌then◌else◌, ◌∷◌, length, ◌≡◌, refl, arith, Bool-cases, inl, inr, ==_iff,
}
use dpdk_folder.Dpdk.{
  Driver, Trace, rx_burst, timer_cycles, timer_hz, M, ◌>>=◌, ◌>>◌, still_running, ask_burst,
  ask_word, burst_of, word_of, running, trace_of, value_of, machine,
}
use dpdk_folder.Dpdk.Bursts.{free_all, frees, free_all-eq-frees, received-frees, released-frees}
use dpdk_folder.Dpdk.Ownership.{count_of_length, IsBalanced}
use dpdk_folder.Prefetch.Rate.{Counter, count_burst, print_rate}

abbrev pub burst_size : ℕ
burst_size = 32

-- `while (1)`, for some rounds
unfoldable pub rx_rounds : (port hz rounds : ℕ) → Counter → M (Unit {0})
rx_rounds port hz zero c = still_running
rx_rounds port hz (suc rounds) c = do
  bufs ← ask_burst (rx_burst port 0 burst_size)
  if length bufs == 0 then rx_rounds port hz rounds c else (do
    free_all bufs
    now ← ask_word timer_cycles
    rx_rounds port hz rounds (print_rate now hz (count_burst (length bufs) c)).1)

unfoldable pub lcore_main : (port rounds : ℕ) → M (Unit {0})
lcore_main port rounds = do
  start ← ask_word timer_cycles
  hz ← ask_word timer_hz
  rx_rounds port hz rounds (record { total = 0; last = 0; start = start })

rx_rounds-IsBalanced :
    (port hz rounds : ℕ) (c : Counter) (d : Driver) (h : Trace)
    → (value_of (rx_rounds port hz rounds c d h) ≡ running)
      × IsBalanced h (trace_of (rx_rounds port hz rounds c d h))
unfolding rx_rounds machine
rx_rounds-IsBalanced port hz zero c d h = (refl, λ a. refl)
rx_rounds-IsBalanced port hz (suc rounds) c d h =
    let bufs = d.burst (length h) (rx_burst port 0 32) in
    let h₁ = burst_of (rx_burst port 0 32) bufs ∷ h in
    let h₂ = frees bufs h₁ in
    let now = d.word (length h₂) timer_cycles in
    let h₃ = word_of timer_cycles now ∷ h₂ in
    let c' = (print_rate now hz (count_burst (length bufs) c)).1 in
    elim (Bool-cases (length bufs == 0)) [
      | inl e ↦ rw e (
        (rx_rounds-IsBalanced port hz rounds c d h₁).0,
        λ a. omega (
          arith,
          (rx_rounds-IsBalanced port hz rounds c d h₁).1 a,
          count_of_length a bufs ((==_iff _ 0).0 e),
        ),
      )
      | inr e ↦
          rw (e, free_all-eq-frees bufs d h₁)
            (
              (rx_rounds-IsBalanced port hz rounds c' d h₃).0,
              λ a. omega (
                arith,
                (rx_rounds-IsBalanced port hz rounds c' d h₃).1 a,
                received-frees a bufs h₁,
                released-frees a bufs h₁,
              ),
            )
    ]

-- However many rounds it is given, `lcore_main` does not end by itself, and has
-- then freed every packet that it got, as often as it got it.
pub lcore_main-IsBalanced :
    (port rounds : ℕ) (d : Driver) (h : Trace)
    → (value_of (lcore_main port rounds d h) ≡ running)
      × IsBalanced h (trace_of (lcore_main port rounds d h))
unfolding lcore_main machine
lcore_main-IsBalanced port rounds d h =
    let start = d.word (length h) timer_cycles in
    let h₁ = word_of timer_cycles start ∷ h in
    let hz = d.word (length h₁) timer_hz in
    rx_rounds-IsBalanced port hz rounds _ d (word_of timer_hz hz ∷ h₁)

-- ===== src/Cores/Fragments.antt =====
-- fragmentation/main.c: the set-up of a fragment table, and a loop whose `continue` stands above all that
-- would reassemble a packet.
use dpdk_folder.Prelude.{
  ℕ, ℤ, zero, suc, pos, ◌+◌, ◌==◌, ◌≡◌, ◌⊎◌, refl, arith, inl, inr, Bool-cases, is_neg, [], ◌∷◌,
  length,
}
use dpdk_folder.Dpdk.{
  Driver, Trace, exited, running, M, ◌>>=◌, ◌>>◌, pure, function, exit_if, ask_int, ask_word, run,
  eal_init, pool_create, frag_table_create, sleep, timer_hz, did, int_of, word_of, value_of,
  trace_of, machine,
}
use dpdk_folder.Dpdk.Loops.{forever, still_runs}

-- `sleep(1); continue;`
unfoldable pub wait_round : M (Unit {0})
wait_round = run (sleep 1)

unfoldable pub main : (rounds : ℕ) → M ℤ
main rounds = function do
  ret ← ask_int eal_init
  exit_if (is_neg ret)
  mbuf_pool ← ask_word (pool_create "MBUF_POOL" 8192 256)
  exit_if (mbuf_pool == 0)
  hz ← ask_word timer_hz
  frag_tbl ← ask_word (frag_table_create 1024 1024 1024 hz)
  exit_if (frag_tbl == 0)
  forever rounds wait_round
  pure (pos 0)

abbrev pub slept : Trace → ℕ
slept [] = 0
slept (did (sleep _) ∷ h) = 1 + slept h
slept (_ ∷ h) = slept h

wait_rounds_lem :
    (rounds : ℕ) (d : Driver) (h : Trace)
    → (value_of (forever rounds wait_round d h) ≡ running)
      × (slept (trace_of (forever rounds wait_round d h)) ≡ rounds + slept h)
      × (length (trace_of (forever rounds wait_round d h)) ≡ rounds + length h)
unfolding forever wait_round machine
wait_rounds_lem zero d h = (refl, omega arith, omega arith)
wait_rounds_lem (suc rounds) d h =
    let (still, s, l) = wait_rounds_lem rounds d (did (sleep 1) ∷ h) in
    (still, omega (arith, s), omega (arith, l))

-- For every driver, main of fragmentation/main.c exits without a pause, where the EAL, the pool or the table
-- cannot be had, or it does not return, and then it makes one call in each round: it sleeps, and
-- neither receives nor reassembles nor frees a packet.
pub fragments_main-Idles :
    (d : Driver) (rounds : ℕ)
    → ((value_of (main rounds d []) ≡ exited) × (slept (trace_of (main rounds d [])) ≡ 0))
      ⊎ ((value_of (main rounds d []) ≡ running)
          × (slept (trace_of (main rounds d [])) ≡ rounds)
          × (length (trace_of (main rounds d [])) ≡ rounds + 4))
unfolding main machine
fragments_main-Idles d rounds =
    let ret = d.int 0 eal_init in
    let pool : ℕ = d.word 1 (pool_create "MBUF_POOL" 8192 256) in
    let hz : ℕ = d.word 2 timer_hz in
    let table : ℕ = d.word 3 (frag_table_create 1024 1024 1024 hz) in
    let h : Trace =
      word_of (frag_table_create 1024 1024 1024 hz) table
      ∷ word_of timer_hz hz
      ∷ word_of (pool_create "MBUF_POOL" 8192 256) pool
      ∷ int_of eal_init ret
      ∷ [] in
    let (still, s, l) = wait_rounds_lem rounds d h in
    elim (Bool-cases (is_neg ret)) [
      | inl e ↦ inl (rw e (refl, refl))
      | inr e ↦ elim (Bool-cases (pool == 0)) [
        | inl f ↦ inl (rw (e, f) (refl, refl))
        | inr f ↦ elim (Bool-cases (table == 0)) [
          | inl g ↦ inl (rw (e, f, g) (refl, refl))
          | inr g ↦ inr (
              rw (e, f, g, still_runs (forever rounds wait_round) d h still)
                (refl, omega (arith, s), omega (arith, l)))
        ]
      ]
    ]

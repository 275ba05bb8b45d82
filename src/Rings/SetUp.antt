-- ===== src/Rings/SetUp.antt =====
-- The ways to the rings: the mains of full_duplex_2_rings and ipc_ring_pri_sec up to the loops that
-- Rings/Duplex and Rings/Ipc are about.
use Prim.Native.String.{String}
use dpdk_folder.Prelude.{
  ℕ, zero, suc, pos, ◌+◌, ◌<◌, ◌≤◌, ◌==◌, ◌≡◌, ◌≢◌, ◌⊎◌, refl, arith, is_neg, inl, inr, Bool-cases,
  ==_iff, false, if◌then◌else◌, [], ◌∷◌, length,
}
use dpdk_folder.Dpdk.{
  Driver, Trace, done, returned, exited, int_of, word_of, did, M, ◌>>=◌, ◌>>◌, pure, return_if,
  exit_if, ask_int, ask_word, run, still_running, eal_init, ring_create, ring_lookup, sleep,
  value_of, machine,
}

-- main of full_duplex_2_rings/prim.c
unfoldable pub duplex_primary : M (ℕ × ℕ)
duplex_primary = do
  ret ← ask_int eal_init
  return_if (is_neg ret) (pos 1)
  ring1 ← ask_word (ring_create "ring1" 1024)
  return_if (ring1 == 0) (pos 1)
  ring2 ← ask_word (ring_create "ring2" 1024)
  return_if (ring2 == 0) (pos 1)
  pure (ring1, ring2)

-- `while(!ring)`; between two look-ups it pauses, or sleeps.
unfoldable pub find_ring : (pause : M (Unit {0})) (rounds : ℕ) (name : String) → M ℕ
find_ring pause zero name = still_running
find_ring pause (suc rounds) name = do
  ring ← ask_word (ring_lookup name)
  pause
  if ring == 0 then find_ring pause rounds name else pure ring

-- main of full_duplex_2_rings/sec.c; `rte_pause` is not a call of the library's state.
unfoldable pub duplex_secondary : (rounds : ℕ) → M (ℕ × ℕ)
duplex_secondary rounds = do
  ret ← ask_int eal_init
  return_if (is_neg ret) (pos 1)
  ring1 ← find_ring (pure tt) rounds "ring1"
  ring2 ← find_ring (pure tt) rounds "ring2"
  pure (ring1, ring2)

-- main of ipc_ring_pri_sec/prim.c, and of sec.c
unfoldable pub ipc_primary : M ℕ
ipc_primary = do
  ret ← ask_int eal_init
  exit_if (is_neg ret)
  ring ← ask_word (ring_create "IPC_RING" 1024)
  exit_if (ring == 0)
  pure ring

unfoldable pub ipc_secondary : (rounds : ℕ) → M ℕ
ipc_secondary rounds = do
  ret ← ask_int eal_init
  exit_if (is_neg ret)
  find_ring (run (sleep 1)) rounds "IPC_RING"

-- From call number `k` on the rings are there.
abbrev pub IsThereFrom : Driver → ℕ → Type 0
IsThereFrom d k = (n : ℕ) (name : String) → k ≤ n → d.word n (ring_lookup name) ≢ 0

-- A pause that ends.
abbrev Pauses : Driver → M (Unit {0}) → Type 0
Pauses d pause = (h : Trace) → (h' : Trace) × (pause d h ≡ (done tt, h')) × (length h ≤ length h')

find_ring_lem :
    (pause : M (Unit {0})) (d : Driver) (k rounds : ℕ) (name : String) (h : Trace)
    → Pauses d pause
    → IsThereFrom d k
    → 0 < rounds
    → k < rounds + length h
    → (r : ℕ) × (h' : Trace) × (find_ring pause rounds name d h ≡ (done r, h'))
      × (r ≢ 0)
      × (length h ≤ length h')
unfolding find_ring machine
find_ring_lem pause d k zero name h ends there some_round lt = absurd (omega arith)
find_ring_lem pause d k (suc rounds) name h ends there some_round lt =
    let ring : ℕ = d.word (length h) (ring_lookup name) in
    let (h₁, paused, longer) = ends (word_of (ring_lookup name) ring ∷ h) in
    elim (Bool-cases (ring == 0)) [
      | inl e ↦
          let zero_ring : ring ≡ 0 = (==_iff ring 0).0 e in
          let early : length h < k = ground (arith, there (length h) name) in
          let (r, h', found, ne, longer') =
            find_ring_lem pause d k rounds name h₁ ends there (omega arith) (omega arith) in
          (r, h', rw (paused, e) found, ne, omega arith)
      | inr e ↦ (ring, h₁, rw (paused, e) refl, ground arith, omega arith)
    ]

no_pause : (d : Driver) → Pauses d (pure tt)
unfolding pure
no_pause d h = (h, refl, omega arith)

one_second : (d : Driver) → Pauses d (run (sleep 1))
unfolding run
one_second d h = (did (sleep 1) ∷ h, refl, omega arith)

-- If the EAL starts, and the rings are there from call number `k` of the process on: the secondaries of
-- full_duplex_2_rings and of ipc_ring_pri_sec, which look them up again and again, have found them
-- within `k + 1` look-ups of each, and do not go on with a NULL ring.
pub secondaries_find_rings :
    (d : Driver) (k : ℕ)
    → is_neg (d.int 0 eal_init) ≡ false
    → IsThereFrom d k
    → ((r₁ r₂ : ℕ) × (value_of (duplex_secondary (k + 1) d []) ≡ done (r₁, r₂))
        × (r₁ ≢ 0)
        × (r₂ ≢ 0))
      × ((r : ℕ) × (value_of (ipc_secondary (k + 1) d []) ≡ done r) × (r ≢ 0))
unfolding duplex_secondary ipc_secondary machine
secondaries_find_rings d k starts there =
    let h : Trace = int_of eal_init (d.int 0 eal_init) ∷ [] in
    let (r₁, h₁, e₁, ne₁, longer) =
      find_ring_lem (pure tt) d k (k + 1) "ring1" h (no_pause d) there (omega arith)
        (omega arith) in
    let (r₂, h₂, e₂, ne₂, _) =
      find_ring_lem (pure tt) d k (k + 1) "ring2" h₁ (no_pause d) there (omega arith)
        (omega arith) in
    let (r, h', e, ne, _) =
      find_ring_lem (run (sleep 1)) d k (k + 1) "IPC_RING" h (one_second d) there (omega arith)
        (omega arith) in
    ((r₁, r₂, rw (starts, e₁, e₂) refl, ne₁, ne₂), (r, rw (starts, e) refl, ne))

-- For every driver, the primaries go on only with rings that could be made: main of full_duplex_2_rings/prim.c
-- has two, or it returns 1, and main of ipc_ring_pri_sec/prim.c has one, or it exits.
pub primaries_have_rings :
    (d : Driver)
    → (((r₁ r₂ : ℕ) × (value_of (duplex_primary d []) ≡ done (r₁, r₂)) × (r₁ ≢ 0) × (r₂ ≢ 0))
        ⊎ (value_of (duplex_primary d []) ≡ returned (pos 1)))
      × (((r : ℕ) × (value_of (ipc_primary d []) ≡ done r) × (r ≢ 0))
          ⊎ (value_of (ipc_primary d []) ≡ exited))
unfolding duplex_primary ipc_primary machine
primaries_have_rings d =
    let ret = d.int 0 eal_init in
    let r₁ : ℕ = d.word 1 (ring_create "ring1" 1024) in
    let r₂ : ℕ = d.word 2 (ring_create "ring2" 1024) in
    let r : ℕ = d.word 1 (ring_create "IPC_RING" 1024) in
    elim (Bool-cases (is_neg ret)) [
      | inl e ↦ (inr (rw e refl), inr (rw e refl))
      | inr e ↦ (
        elim (Bool-cases (r₁ == 0)) [
          | inl f ↦ inr (rw (e, f) refl)
          | inr f ↦ elim (Bool-cases (r₂ == 0)) [
            | inl g ↦ inr (rw (e, f, g) refl)
            | inr g ↦ inl (r₁, r₂, rw (e, f, g) refl, ground arith, ground arith)
          ]
        ],
        elim (Bool-cases (r == 0)) [
          | inl f ↦ inr (rw (e, f) refl)
          | inr f ↦ inl (r, rw (e, f) refl, ground arith)
        ],
      )
    ]

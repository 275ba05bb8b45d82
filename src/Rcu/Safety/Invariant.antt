-- ===== src/Rcu/Safety/Invariant.antt =====
-- What holds of the blocks and of the reader of rcu_dpdk/main.c at each place of the two threads' code.
use dpdk_folder.Prelude.{
  ℕ, ◌+◌, ◌<◌, ◌≤◌, ◌==◌, ◌≡◌, true, false, List, [], ◌∷◌, Option, some, none, ◌⊎◌,
}
use dpdk_folder.Rcu.Steps.{
  System, Reader, holding, returned, Writer, at_round, allocated, swapped, synchronizing,
  synchronized, stopped, joined, cleaned,
}

-- All are values, the newest at most `top` and none newer than the one before it.
abbrev pub IsDescending : (top : ℕ) → List (Option ℕ) → Type 0
IsDescending top [] = Unit {0}
IsDescending top (none ∷ l) = ⊥
IsDescending top (some v ∷ l) = (v ≤ top) × IsDescending v l

-- The value in `gdata`.
abbrev pub current : Writer → ℕ
current (at_round i) = i
current (allocated i new) = i
current (swapped i old) = i + 1
current (synchronizing i old) = i + 1
current (synchronized i old) = i + 1
current stopped = 5
current joined = 5
current cleaned = 5

-- Between the swap and the free, the new block and the old one are in use.
abbrev HasBoth : (i old : ℕ) → System → Type 0
HasBoth i old s =
    (s.heap ≡ (s.gdata, i + 1) ∷ (old, i) ∷ [])
    × (i < 5)
    × ((s.gdata == old) ≡ false)
    × ((old == s.gdata) ≡ false)

-- The blocks in use.
abbrev pub HeapIs : Writer → System → Type 0
HeapIs (at_round i) s = (s.heap ≡ (s.gdata, i) ∷ []) × (i ≤ 5)
HeapIs (allocated i new) s =
    (s.heap ≡ (new, i + 1) ∷ (s.gdata, i) ∷ [])
    × (i < 5)
    × ((s.gdata == new) ≡ false)
    × ((new == s.gdata) ≡ false)
HeapIs (swapped i old) s = HasBoth i old s
HeapIs (synchronizing i old) s = HasBoth i old s
HeapIs (synchronized i old) s = HasBoth i old s
HeapIs stopped s = s.heap ≡ (s.gdata, 5) ∷ []
HeapIs joined s = (s.heap ≡ (s.gdata, 5) ∷ []) × (s.reader ≡ returned)
HeapIs cleaned s = (s.heap ≡ []) × (s.reader ≡ returned)

-- The blocks that the reader may hold, with the values in them.
abbrev pub MayHold : Writer → System → (block value : ℕ) → Type 0
MayHold (swapped i old) s b v = ((b ≡ s.gdata) × (v ≡ i + 1)) ⊎ ((b ≡ old) × (v ≡ i))
MayHold (synchronizing i old) s b v =
    ((b ≡ s.gdata) × (v ≡ i + 1)) ⊎ ((b ≡ old) × (v ≡ i) × (s.quiet ≡ false))
MayHold joined s b v = ⊥
MayHold cleaned s b v = ⊥
MayHold w s b v = (b ≡ s.gdata) × (v ≡ current w)

-- Behind a load, before the print; elsewhere.
abbrev pub ReaderIs : Reader → System → Type 0
ReaderIs (holding d) s = (v : ℕ) × MayHold s.writer s d v × IsDescending v s.printed
ReaderIs _ s = IsDescending (current s.writer) s.printed

pub record IsSafe (s : System) : Type 0 where
  pub heap : HeapIs s.writer s
  pub reading : ReaderIs s.reader s

-- The documented behaviour of synchronize: it returns once the reader has been quiescent.
abbrev pub WaitsForReader : (System → Type 0) → Type 0
WaitsForReader MayReturn = (s : System) → MayReturn s → s.quiet ≡ true

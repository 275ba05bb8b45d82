-- ===== src/Dpdk/Ownership.antt =====
-- Who owns a packet buffer, by the trace: the application, from a receive until it frees or sends it.
use dpdk_folder.Dpdk.Calls.{
  Mbuf, word_of, burst_of, did, Trace, rx_burst, tx_burst, pktmbuf_free, pktmbuf_alloc,
}
use dpdk_folder.Prelude.{
  ℕ, ◌+◌, ◌<◌, ◌≤◌, List, [], ◌∷◌, ◌++◌, ◌≡◌, ◌==◌, if◌then◌else◌, take, drop, take-append-drop,
  arith, ap, length, refl,
}

-- How often a buffer's address stands in an array.
abbrev pub count : ℕ → List Mbuf → ℕ
count a [] = 0
count a (m ∷ ms) = (if m.addr == a then 1 else 0) + count a ms

pub count-append : (a : ℕ) (xs ys : List Mbuf) → count a (xs ++ ys) ≡ count a xs + count a ys
count-append a [] ys = omega arith
count-append a (x ∷ xs) ys = omega (arith, count-append a xs ys)

pub count-take-drop :
    (a n : ℕ) (xs : List Mbuf) → count a (take n xs) + count a (drop n xs) ≡ count a xs
count-take-drop a n xs =
    omega (arith, count-append a (take n xs) (drop n xs), ap (count a) (take-append-drop n xs))

pub count_of_length : (a : ℕ) (xs : List Mbuf) → length xs ≡ 0 → count a xs ≡ 0
count_of_length a [] h = refl
count_of_length a (x ∷ xs) h = absurd (omega arith)

-- How often an address came into the application's hands.
abbrev pub received : ℕ → Trace → ℕ
received a [] = 0
received a (burst_of (rx_burst _ _ _) ms ∷ h) = count a ms + received a h
received a (word_of (pktmbuf_alloc _) p ∷ h) = (if p == a then 1 else 0) + received a h
received a (_ ∷ h) = received a h

-- How often it left them. `rte_eth_tx_burst` takes the first `n` packets, as many as it returns.
abbrev pub released : ℕ → Trace → ℕ
released a [] = 0
released a (word_of (tx_burst _ _ pkts) n ∷ h) = count a (take n pkts) + released a h
released a (did (pktmbuf_free m) ∷ h) = (if m.addr == a then 1 else 0) + released a h
released a (_ ∷ h) = released a h

-- Since `h`, every buffer that came was given back as often as it came: nothing leaked, nothing was
-- given back twice.
abbrev pub IsBalanced : Trace → Trace → Type 0
IsBalanced h h' = (a : ℕ) → received a h' + released a h ≡ received a h + released a h'

-- Whatever is freed or sent is in the application's hands when it is.
abbrev pub UsesOwned : Trace → Type 0
UsesOwned [] = Unit {0}
UsesOwned (word_of (tx_burst _ _ pkts) n ∷ h) =
    ((a : ℕ) → released a h + count a pkts ≤ received a h) × UsesOwned h
UsesOwned (did (pktmbuf_free m) ∷ h) = (released m.addr h < received m.addr h) × UsesOwned h
UsesOwned (_ ∷ h) = UsesOwned h

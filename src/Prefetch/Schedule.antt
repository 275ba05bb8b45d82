-- ===== src/Prefetch/Schedule.antt =====
-- The three loops of `lcore_main` over a burst: which packet is prefetched or processed, in which order.
use dpdk_folder.Prelude.{
  ℕ, zero, suc, ◌+◌, ◌-◌, ◌≤◌, ◌<◌, List, [], ◌∷◌, ◌++◌, ◌≡◌, refl, sym, arith, Bool-cases, inl,
  inr, ltb, ltb→lt, ltb→le,
}
use mathlib.Core.List.{append_assoc, append-nil}
use mathlib.Core.Path.{subst}
use Prim.Native.Nat.{min}

-- `rte_prefetch0` of `bufs[i]`, and `process_packet(bufs[i])`
pub data Action : Type 0 where
  prefetch : ℕ → Action
  process : ℕ → Action

abbrev pub prefetch_offset : ℕ
prefetch_offset = 4

-- `for (i = from; …; i++) body(i)` that runs `count` times
abbrev pub for_from : (from count : ℕ) → (ℕ → List Action) → List Action
for_from from zero body = []
for_from from (suc count) body = body from ++ for_from (suc from) count body

-- `nb_rx - PREFETCH_OFFSET` is an `int`. Where it is negative the second loop does not run, as where it
-- is 0.
unfoldable pub schedule : (nb_rx : ℕ) → List Action
schedule nb_rx =
    for_from 0 (min prefetch_offset nb_rx) (λ i. prefetch i ∷ [])
    ++ for_from 0 (nb_rx - prefetch_offset) (λ i. prefetch (i + prefetch_offset) ∷ process i ∷ [])
    ++ for_from (nb_rx - prefetch_offset) (nb_rx - (nb_rx - prefetch_offset)) (λ i. process i ∷ [])

-- The packets processed, and those prefetched, in order.
abbrev pub processed : List Action → List ℕ
processed [] = []
processed (prefetch i ∷ xs) = processed xs
processed (process i ∷ xs) = i ∷ processed xs

abbrev pub prefetched : List Action → List ℕ
prefetched [] = []
prefetched (prefetch i ∷ xs) = i ∷ prefetched xs
prefetched (process i ∷ xs) = prefetched xs

-- from, from + 1, …
abbrev pub range : (from count : ℕ) → List ℕ
range from zero = []
range from (suc count) = from ∷ range (suc from) count

-- Each processed packet was prefetched before: `n` are prefetched already, 0 to n - 1.
abbrev pub IsAhead : ℕ → List Action → Type 0
IsAhead n [] = Unit {0}
IsAhead n (prefetch i ∷ xs) = (i ≡ n) × IsAhead (suc n) xs
IsAhead n (process i ∷ xs) = (i < n) × IsAhead n xs

processed-append : (xs ys : List Action) → processed (xs ++ ys) ≡ processed xs ++ processed ys
processed-append [] ys = refl
processed-append (prefetch i ∷ xs) ys = processed-append xs ys
processed-append (process i ∷ xs) ys = rw (processed-append xs ys)

range-append : (from m n : ℕ) → range from (m + n) ≡ range from m ++ range (from + m) n
range-append from zero n =
    let left : 0 + n ≡ n = omega arith in
    let right : from + 0 ≡ from = omega arith in rw (left, right)
range-append from (suc m) n =
    let left : suc m + n ≡ suc (m + n) = omega arith in
    let right : from + suc m ≡ suc from + m = omega arith in
    rw (left, right, range-append (suc from) m n)

processed_first : (from n : ℕ) → processed (for_from from n (λ i. prefetch i ∷ [])) ≡ []
processed_first from zero = refl
processed_first from (suc n) = processed_first (suc from) n

processed_main :
    (from n : ℕ)
    → processed (for_from from n (λ i. prefetch (i + 4) ∷ process i ∷ [])) ≡ range from n
processed_main from zero = refl
processed_main from (suc n) = rw (processed_main (suc from) n)

processed_rest : (from n : ℕ) → processed (for_from from n (λ i. process i ∷ [])) ≡ range from n
processed_rest from zero = refl
processed_rest from (suc n) = rw (processed_rest (suc from) n)

prefetched-append : (xs ys : List Action) → prefetched (xs ++ ys) ≡ prefetched xs ++ prefetched ys
prefetched-append [] ys = refl
prefetched-append (prefetch i ∷ xs) ys = rw (prefetched-append xs ys)
prefetched-append (process i ∷ xs) ys = prefetched-append xs ys

prefetched_first : (from n : ℕ) → prefetched (for_from from n (λ i. prefetch i ∷ [])) ≡ range from n
prefetched_first from zero = refl
prefetched_first from (suc n) = rw (prefetched_first (suc from) n)

prefetched_main :
    (from n : ℕ)
    → prefetched (for_from from n (λ i. prefetch (i + 4) ∷ process i ∷ [])) ≡ range (from + 4) n
prefetched_main from zero = refl
prefetched_main from (suc n) = ground (arith, prefetched_main (suc from) n)

prefetched_rest : (from n : ℕ) → prefetched (for_from from n (λ i. process i ∷ [])) ≡ []
prefetched_rest from zero = refl
prefetched_rest from (suc n) = prefetched_rest (suc from) n

IsAhead-first :
    (from n : ℕ) (rest : List Action)
    → IsAhead (from + n) rest
    → IsAhead from (for_from from n (λ i. prefetch i ∷ []) ++ rest)
IsAhead-first from zero rest h = subst (λ k. IsAhead k rest) (omega arith) h
IsAhead-first from (suc n) rest h =
    (refl, IsAhead-first (suc from) n rest (subst (λ k. IsAhead k rest) (omega arith) h))

IsAhead-main :
    (from n k : ℕ) (rest : List Action)
    → k ≡ from + 4
    → IsAhead (k + n) rest
    → IsAhead k (for_from from n (λ i. prefetch (i + 4) ∷ process i ∷ []) ++ rest)
IsAhead-main from zero k rest e h = subst (λ k. IsAhead k rest) (omega arith) h
IsAhead-main from (suc n) k rest e h = (
  sym e,
  (
    omega arith,
    IsAhead-main (suc from) n (suc k) rest (omega arith)
        (subst (λ k. IsAhead k rest) (omega arith) h),
  ),
)

IsAhead-rest :
    (n from count : ℕ) → from + count ≤ n → IsAhead n (for_from from count (λ i. process i ∷ []))
IsAhead-rest n from zero h = tt
IsAhead-rest n from (suc count) h = (omega arith, IsAhead-rest n (suc from) count (omega arith))

range_split : (a b c : ℕ) → a + b ≡ c → range 0 a ++ range a b ≡ range 0 c
range_split a b c e = let from : 0 + a ≡ a = omega arith in rw (← e, range-append 0 a b, from)

-- The first loop prefetches up to four packets, the second all others.
range_split_four : (n : ℕ) → range 0 (min 4 n) ++ range 4 (n - 4) ≡ range 0 n
range_split_four zero = refl
range_split_four (suc zero) = refl
range_split_four (suc (suc zero)) = refl
range_split_four (suc (suc (suc zero))) = refl
range_split_four (suc (suc (suc (suc n)))) =
    let four : min 4 (suc (suc (suc (suc n)))) ≡ 4 = omega arith in
    let less : suc (suc (suc (suc n))) - 4 ≡ n = omega arith in rw (four, less)

schedule-IsAhead : (n : ℕ) → IsAhead 0 (schedule n)
unfolding schedule
schedule-IsAhead n =
    let second = for_from 0 (n - 4) (λ i. prefetch (i + 4) ∷ process i ∷ []) in
    let third = for_from (n - 4) (n - (n - 4)) (λ i. process i ∷ []) in
    rw (append_assoc (for_from 0 (min 4 n) (λ i. prefetch i ∷ [])) second third) (
      IsAhead-first 0 (min 4 n) (second ++ third) (elim (Bool-cases (ltb n 4)) [
        | inl few ↦
            let none_left : n - 4 ≡ 0 = omega (arith, ltb→lt n 4 few) in
            rw none_left (IsAhead-rest (0 + min 4 n) 0 (n - 0) (omega (arith, ltb→lt n 4 few)))
        | inr many ↦
            let four : 4 ≤ n = ltb→le n 4 many in
            IsAhead-main 0 (n - 4) (0 + min 4 n) third (omega (arith, four))
              (IsAhead-rest (0 + min 4 n + (n - 4)) (n - 4) (n - (n - 4)) (omega (arith, four)))
      ]))

-- Of a burst of `nb_rx` packets the loops process each packet once, in order, and prefetch each once, in
-- order and before it is processed; they touch no other index. That holds for bursts shorter than the
-- prefetch distance too.
pub schedule_lem :
    (nb_rx : ℕ)
    → (processed (schedule nb_rx) ≡ range 0 nb_rx)
      × (prefetched (schedule nb_rx) ≡ range 0 nb_rx)
      × IsAhead 0 (schedule nb_rx)
unfolding schedule
schedule_lem nb_rx =
    let n = nb_rx - 4 in
    let first = for_from 0 (min 4 nb_rx) (λ i. prefetch i ∷ []) in
    let second = for_from 0 n (λ i. prefetch (i + 4) ∷ process i ∷ []) in
    let third = for_from n (nb_rx - n) (λ i. process i ∷ []) in
    (
      rw
          (
            processed-append (first ++ second) third,
            processed-append first second,
            processed_first 0 (min 4 nb_rx),
            processed_main 0 n,
            processed_rest n (nb_rx - n),
          )
          (range_split n (nb_rx - n) nb_rx (omega arith)),
      rw
          (
            prefetched-append (first ++ second) third,
            prefetched-append first second,
            prefetched_first 0 (min 4 nb_rx),
            prefetched_main 0 n,
            prefetched_rest n (nb_rx - n),
            append-nil (range 0 (min 4 nb_rx) ++ range (0 + 4) n),
          )
          (range_split_four nb_rx),
      schedule-IsAhead nb_rx,
    )

-- ===== src/Rings/Ipc/Chains.antt =====
-- What is in flight between the processes of ipc_ring_pri_sec: blocks with consecutive numbers.
use dpdk_folder.Prelude.{
  ℕ, zero, suc, ◌+◌, ◌<◌, ◌≤◌, ◌==◌, ◌≡◌, refl, sym, ap, ◌∙◌, arith, List, [], ◌∷◌, ◌++◌, length,
  some, none, Bool-cases, inl, inr, ==_iff,
}
use dpdk_folder.Dpdk.Malloc.{value_at, free, value_at-first, value_at-free}
use dpdk_folder.Rings.Ipc.{
  Primary, at_round, filled, ended, Secondary, listening, received, told, System,
}

-- The blocks hold `n`, `n + 1` and so on, and the next number is `e`.
abbrev pub Chain : List (ℕ × ℕ) → List ℕ → ℕ → ℕ → Type 0
Chain heap [] n e = n ≡ e
Chain heap (p ∷ blocks) n e = (value_at p heap ≡ some n) × Chain heap blocks (n + 1) e

-- The block that the primary has not enqueued, the one that the secondary has not freed, and the number
-- that the primary fills next.
abbrev pub back : Primary → List ℕ
back (filled i msg) = msg ∷ []
back _ = []

abbrev pub front : Secondary → List ℕ
front listening = []
front (received val) = val ∷ []
front (told val) = val ∷ []

abbrev pub next : Primary → ℕ
next (at_round i) = i
next (filled i msg) = i + 1
next ended = 10

abbrev pub in_flight : System → List ℕ
in_flight s = front s.secondary ++ (s.ring ++ back s.primary)

-- `0` to `n - 1`, the newest first.
abbrev pub down_from : ℕ → List ℕ
down_from zero = []
down_from (suc n) = n ∷ down_from n

-- What is printed is the numbers before `n`, or with `n`, where the block is only to be freed.
abbrev pub Printed : Secondary → ℕ → List ℕ → Type 0
Printed (told val) n printed = printed ≡ down_from (suc n)
Printed _ n printed = printed ≡ down_from n

pub record InOrder (s : System) : Type 0 where
  pub first : ℕ
  pub chain : Chain s.heap (in_flight s) first (next s.primary)
  pub bound : next s.primary ≤ 10
  pub told_so : Printed s.secondary first s.printed

pub Chain-le : (heap : List (ℕ × ℕ)) (l : List ℕ) (n e : ℕ) → Chain heap l n e → n + length l ≡ e
Chain-le heap [] n e c = omega (arith, c)
Chain-le heap (p ∷ l) n e (v, c) = omega (arith, Chain-le heap l (n + 1) e c)

-- A number is added behind the others.
pub Chain-fill :
    (heap : List (ℕ × ℕ)) (l : List ℕ) (n e msg : ℕ)
    → value_at msg heap ≡ none
    → Chain heap l n e
    → Chain ((msg, e) ∷ heap) (l ++ msg ∷ []) n (e + 1)
Chain-fill heap [] n e msg unused c = (rw c (value_at-first msg e heap), rw c refl)
Chain-fill heap (p ∷ l) n e msg unused (v, c) = elim (Bool-cases (msg == p)) [
  | inl same ↦ let eq : msg ≡ p = (==_iff msg p).0 same in cc
  | inr other ↦ (rw other v, Chain-fill heap l (n + 1) e msg unused c)
]

-- Freeing a block with a smaller number does not touch the others.
pub Chain-free :
    (heap : List (ℕ × ℕ)) (l : List ℕ) (n e val k : ℕ)
    → value_at val heap ≡ some k
    → k < n
    → Chain heap l n e
    → Chain (free val heap) l n e
Chain-free heap [] n e val k holds lt c = c
Chain-free heap (p ∷ l) n e val k holds lt (v, c) = elim (Bool-cases (val == p)) [
  | inl same ↦
      let eq : val ≡ p = (==_iff val p).0 same in
      let both : some k ≡ some n = sym holds ∙ (ap (λ b. value_at b heap) eq ∙ v) in
      let k_is : k ≡ n = cc in absurd (omega (arith, k_is))
  | inr other ↦
      (value_at-free p val heap other ∙ v, Chain-free heap l (n + 1) e val k holds (omega arith) c)
]

-- ===== src/Dpdk/RingApi.antt =====
-- `rte_ring` as its documentation describes it to one producer and one consumer: a first-in first-out
-- queue whose burst calls take as much as they can. The library's code is a parameter of what uses it.
use Prim.Native.Nat.{min}
use dpdk_folder.Prelude.{
  ℕ, ◌-◌, ◌≤◌, List, ◌++◌, ◌≡◌, refl, sym, arith, length, take, drop, length-take, take-append-drop,
}
use dpdk_folder.Dpdk.Calls.{Mbuf}

pub record RingApi : Type 1 where
  pub Ring : Type 0
  pub contents : Ring → List Mbuf
  -- `rte_ring_enqueue_burst`: the ring, and how many objects it took
  pub enqueue_burst : Ring → List Mbuf → Ring × ℕ
  -- `rte_ring_dequeue_burst`, for at most so many objects
  pub dequeue_burst : Ring → ℕ → Ring × List Mbuf
  pub enqueue-le : (r : Ring) (ms : List Mbuf) → (enqueue_burst r ms).1 ≤ length ms
  pub contents-enqueue :
      (r : Ring) (ms : List Mbuf)
      → contents (enqueue_burst r ms).0 ≡ contents r ++ take (enqueue_burst r ms).1 ms
  pub contents-dequeue :
      (r : Ring) (n : ℕ) → contents r ≡ (dequeue_burst r n).1 ++ contents (dequeue_burst r n).0
  pub dequeue-le : (r : Ring) (n : ℕ) → length (dequeue_burst r n).1 ≤ n

pub min_le : (a b : ℕ) → min a b ≤ a
min_le a b = omega arith

pub take_le : (n : ℕ) (r : List Mbuf) → length (take n r) ≤ n
take_le n r = omega (arith, length-take n r)

-- A ring of `size` slots holds `size - 1` objects.
abbrev pub list_ring : ℕ → RingApi
list_ring size = record {
  Ring = List Mbuf;
  contents = λ r. r;
  enqueue_burst = λ r ms. let n = min (length ms) (size - 1 - length r) in (r ++ take n ms, n);
  dequeue_burst = λ r n. (drop n r, take n r);
  enqueue-le = λ r ms. min_le (length ms) (size - 1 - length r);
  contents-enqueue = λ r ms. refl;
  contents-dequeue = λ r n. sym (take-append-drop n r);
  dequeue-le = λ r n. take_le n r;
}

-- ===== src/Rings/Ipc.antt =====
-- ipc_ring_pri_sec: the mains of prim.c and sec.c as a step relation, from the moment when both have the
-- ring. A step is one call or one access to a block. The ring is a queue of at most 1023 pointers, as its
-- documentation says. An allocation succeeds, with any block that is not in use; pauses are left out.
use dpdk_folder.Prelude.{ℕ, ◌+◌, ◌<◌, ◌≡◌, List, [], ◌∷◌, ◌++◌, length, none, some}
use dpdk_folder.Dpdk.Malloc.{value_at, free}
use dpdk_folder.Rings.Duplex.{capacity}
pub mod Chains
pub mod InOrder

-- Behind what the primary is: the test of its loop, `*msg = i`, the end.
pub data Primary : Type 0 where
  at_round : (i : ℕ) → Primary
  filled : (i msg : ℕ) → Primary
  ended : Primary

-- And the secondary: the start of its loop, the dequeue of `val`, the print.
pub data Secondary : Type 0 where
  listening : Secondary
  received : (val : ℕ) → Secondary
  told : (val : ℕ) → Secondary

pub record System : Type 0 where
  pub heap : List (ℕ × ℕ)
  pub ring : List ℕ
  pub primary : Primary
  pub secondary : Secondary
  -- what the secondary has printed, the newest first
  pub printed : List ℕ

pub data Step : System → System → Type 0 where
  fills :
      {s : System} (i msg : ℕ)
      → s.primary ≡ at_round i
      → i < 10
      → value_at msg s.heap ≡ none
      → Step s (record s { primary = filled i msg; heap = (msg, i) ∷ s.heap })
  sends :
      {s : System} (i msg : ℕ)
      → s.primary ≡ filled i msg
      → length s.ring < capacity
      → Step s (record s { primary = at_round (i + 1); ring = s.ring ++ msg ∷ [] })
  ends : {s : System} → s.primary ≡ at_round 10 → Step s (record s { primary = ended })
  gets :
      {s : System} (val : ℕ) (rest : List ℕ)
      → s.secondary ≡ listening
      → s.ring ≡ val ∷ rest
      → Step s (record s { secondary = received val; ring = rest })
  tells :
      {s : System} (val v : ℕ)
      → s.secondary ≡ received val
      → value_at val s.heap ≡ some v
      → Step s (record s { secondary = told val; printed = v ∷ s.printed })
  frees :
      {s : System} (val : ℕ)
      → s.secondary ≡ told val
      → Step s (record s { secondary = listening; heap = free val s.heap })

pub data Reachable : System → System → Type 0 where
  stays : {s : System} → Reachable s s
  then_steps : {s t u : System} → Reachable s t → Step t u → Reachable s u

abbrev pub launched : System
launched = record {
  heap = [];
  ring = [];
  primary = at_round 0;
  secondary = listening;
  printed = [];
}

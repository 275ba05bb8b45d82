-- ===== src/Rings/Duplex.antt =====
-- full_duplex_2_rings: the mains of prim.c and sec.c as a step relation, from the moment when both have both
-- rings. A step is one call or one access to a block. A ring is a queue of at most 1023 pointers, as its
-- documentation says. An allocation succeeds, with any block that is not in use; pauses are left out.
use dpdk_folder.Prelude.{
  ℕ, zero, suc, ◌+◌, ◌*◌, ◌<◌, ◌≤◌, ◌≡◌, ◌≢◌, ℤ, pos, negsuc, List, [], ◌∷◌, ◌++◌, length, Option,
  some, none,
}
use dpdk_folder.Dpdk.Malloc.{value_at, free}
pub mod Phases
pub mod Turns
pub mod Replies

-- Behind what the primary is: the test of its loop, `*msg = i`, the enqueue of `msg`, the print, the
-- dequeue of `reply`, the second print; `*stop = -1`, the last enqueue.
pub data Primary : Type 0 where
  at_round : (i : ℕ) → Primary
  filled : (i msg : ℕ) → Primary
  sent : (i msg : ℕ) → Primary
  noted : (i msg : ℕ) → Primary
  replied : (i msg reply : ℕ) → Primary
  told : (i reply : ℕ) → Primary
  stopping : (stop : ℕ) → Primary
  stopped : Primary

-- And the secondary: the start of its loop, the dequeue of `val`, the first rte_free with `res`, `*reply
-- = res`, the enqueue of `reply`, the end.
pub data Secondary : Type 0 where
  listening : Secondary
  received : (val : ℕ) → Secondary
  computed : (res : ℤ) → Secondary
  answering : (reply : ℕ) → Secondary
  answered : (reply : ℕ) → Secondary
  finished : Secondary

pub record System : Type 0 where
  pub heap : List (ℕ × ℤ)
  pub ring1 : List ℕ
  pub ring2 : List ℕ
  pub primary : Primary
  pub secondary : Secondary
  -- what each prints of a block behind an enqueue, the newest first
  pub primary_told : List (Option ℤ)
  pub secondary_told : List (Option ℤ)

-- A ring of RING_SIZE slots holds one pointer less.
abbrev pub capacity : ℕ
capacity = 1023

-- `(*val) * 10`
abbrev pub times_ten : ℤ → ℤ
times_ten (pos n) = pos (n * 10)
times_ten (negsuc n) = negsuc (n * 10 + 9)

pub data Step : System → System → Type 0 where
  fills :
      {s : System} (i msg : ℕ)
      → s.primary ≡ at_round i
      → i < 10
      → value_at msg s.heap ≡ none
      → Step s (record s { primary = filled i msg; heap = (msg, pos i) ∷ s.heap })
  sends :
      {s : System} (i msg : ℕ)
      → s.primary ≡ filled i msg
      → length s.ring1 < capacity
      → Step s (record s { primary = sent i msg; ring1 = s.ring1 ++ msg ∷ [] })
  -- it prints `*msg`, which the secondary may have freed
  notes :
      {s : System} (i msg : ℕ)
      → s.primary ≡ sent i msg
      → Step s
          (record s { primary = noted i msg; primary_told = value_at msg s.heap ∷ s.primary_told })
  gets_reply :
      {s : System} (i msg reply : ℕ) (rest : List ℕ)
      → s.primary ≡ noted i msg
      → s.ring2 ≡ reply ∷ rest
      → Step s (record s { primary = replied i msg reply; ring2 = rest })
  -- it prints `*msg` once more, not `*received`
  tells :
      {s : System} (i msg reply : ℕ)
      → s.primary ≡ replied i msg reply
      → Step s
          (record s { primary = told i reply; primary_told = value_at msg s.heap ∷ s.primary_told })
  frees_reply :
      {s : System} (i reply : ℕ)
      → s.primary ≡ told i reply
      → Step s (record s { primary = at_round (i + 1); heap = free reply s.heap })
  fills_stop :
      {s : System} (stop : ℕ)
      → s.primary ≡ at_round 10
      → value_at stop s.heap ≡ none
      → Step s (record s { primary = stopping stop; heap = (stop, negsuc 0) ∷ s.heap })
  sends_stop :
      {s : System} (stop : ℕ)
      → s.primary ≡ stopping stop
      → length s.ring1 < capacity
      → Step s (record s { primary = stopped; ring1 = s.ring1 ++ stop ∷ [] })
  -- the result of the last enqueue is ignored
  loses_stop :
      {s : System} (stop : ℕ)
      → s.primary ≡ stopping stop
      → capacity ≤ length s.ring1
      → Step s (record s { primary = stopped })
  gets_message :
      {s : System} (val : ℕ) (rest : List ℕ)
      → s.secondary ≡ listening
      → s.ring1 ≡ val ∷ rest
      → Step s (record s { secondary = received val; ring1 = rest })
  finishes :
      {s : System} (val : ℕ)
      → s.secondary ≡ received val
      → value_at val s.heap ≡ some (negsuc 0)
      → Step s (record s { secondary = finished; heap = free val s.heap })
  computes :
      {s : System} (val : ℕ) (v : ℤ)
      → s.secondary ≡ received val
      → value_at val s.heap ≡ some v
      → v ≢ negsuc 0
      → Step s (record s { secondary = computed (times_ten v); heap = free val s.heap })
  fills_reply :
      {s : System} (res : ℤ) (reply : ℕ)
      → s.secondary ≡ computed res
      → value_at reply s.heap ≡ none
      → Step s (record s { secondary = answering reply; heap = (reply, res) ∷ s.heap })
  sends_reply :
      {s : System} (reply : ℕ)
      → s.secondary ≡ answering reply
      → length s.ring2 < capacity
      → Step s (record s { secondary = answered reply; ring2 = s.ring2 ++ reply ∷ [] })
  tells_reply :
      {s : System} (reply : ℕ)
      → s.secondary ≡ answered reply
      → Step s (record s {
        secondary = listening;
        secondary_told = value_at reply s.heap ∷ s.secondary_told;
      })

pub data Reachable : System → System → Type 0 where
  stays : {s : System} → Reachable s s
  then_steps : {s t u : System} → Reachable s t → Step t u → Reachable s u

abbrev pub launched : System
launched = record {
  heap = [];
  ring1 = [];
  ring2 = [];
  primary = at_round 0;
  secondary = listening;
  primary_told = [];
  secondary_told = [];
}

-- ===== src/Rings/Ipc/InOrder.antt =====
-- The secondary prints the numbers in the order in which the primary sends them.
use mathlib.Core.Path.{subst}
use mathlib.Core.List.{append_assoc, append-nil}
use dpdk_folder.Prelude.{
  ℕ, suc, ◌+◌, ◌<◌, ◌≤◌, ◌≡◌, refl, sym, ap, ◌∙◌, arith, List, [], ◌∷◌, ◌++◌, length, length-append,
  some, none,
}
use dpdk_folder.Dpdk.Malloc.{value_at, free}
use dpdk_folder.Rings.Ipc.{
  at_round, filled, ended, Secondary, listening, received, told, System, Step, fills, sends, ends,
  gets, tells, frees, Reachable, stays, then_steps, launched,
}
use dpdk_folder.Rings.Ipc.Chains.{
  Chain, back, front, next, in_flight, down_from, Printed, InOrder, Chain-le, Chain-fill,
  Chain-free,
}

-- The step of a primary that fills a block, whatever the secondary holds.
fills-InOrder :
    (s : System) (i msg : ℕ)
    → s.primary ≡ at_round i
    → i < 10
    → value_at msg s.heap ≡ none
    → InOrder s
    → InOrder (record s { primary = filled i msg; heap = (msg, i) ∷ s.heap })
fills-InOrder s i msg e lt unused io =
    let before : Chain s.heap (front s.secondary ++ (s.ring ++ [])) io.first i = rw e at io.chain in
    let same : (front s.secondary ++ (s.ring ++ [])) ++ msg ∷ []
        ≡ front s.secondary ++ (s.ring ++ msg ∷ []) =
      rw (append-nil s.ring) (append_assoc (front s.secondary) s.ring (msg ∷ [])) in
    record {
      first = io.first;
      chain =
          subst (λ l. Chain ((msg, i) ∷ s.heap) l io.first (i + 1)) same
            (Chain-fill s.heap (front s.secondary ++ (s.ring ++ [])) io.first i msg unused before);
      bound = omega (arith, lt);
      told_so = io.told_so;
    }

sends-InOrder :
    (s : System) (i msg : ℕ)
    → s.primary ≡ filled i msg
    → InOrder s
    → InOrder (record s { primary = at_round (i + 1); ring = s.ring ++ msg ∷ [] })
sends-InOrder s i msg e io =
    let before : Chain s.heap (front s.secondary ++ (s.ring ++ msg ∷ [])) io.first (i + 1) =
      rw e at io.chain in
    let bound : i + 1 ≤ 10 = rw e at io.bound in
    record {
      first = io.first;
      chain = rw (append-nil (s.ring ++ msg ∷ [])) before;
      bound = bound;
      told_so = io.told_so;
    }

ends-InOrder :
    (s : System) → s.primary ≡ at_round 10 → InOrder s → InOrder (record s { primary = ended })
ends-InOrder s e io =
    let before : Chain s.heap (front s.secondary ++ (s.ring ++ [])) io.first 10 =
      rw e at io.chain in
    record { first = io.first; chain = before; bound = omega arith; told_so = io.told_so }

gets-InOrder :
    (s : System) (val : ℕ) (rest : List ℕ)
    → s.secondary ≡ listening
    → s.ring ≡ val ∷ rest
    → InOrder s
    → InOrder (record s { secondary = received val; ring = rest })
gets-InOrder s val rest e r io =
    let before : Chain s.heap (val ∷ (rest ++ back s.primary)) io.first (next s.primary) =
      rw (e, r) at io.chain in
    let so : s.printed ≡ down_from io.first = rw e at io.told_so in
    record { first = io.first; chain = before; bound = io.bound; told_so = so }

tells-InOrder :
    (s : System) (val v : ℕ)
    → s.secondary ≡ received val
    → value_at val s.heap ≡ some v
    → InOrder s
    → InOrder (record s { secondary = told val; printed = v ∷ s.printed })
tells-InOrder s val v e holds io =
    let before : Chain s.heap (val ∷ (s.ring ++ back s.primary)) io.first (next s.primary) =
      rw e at io.chain in
    let so : s.printed ≡ down_from io.first = rw e at io.told_so in
    let both : some v ≡ some io.first = sym holds ∙ before.0 in
    let v_is : v ≡ io.first = cc in
    record { first = io.first; chain = before; bound = io.bound; told_so = rw (v_is, so) refl }

frees-InOrder :
    (s : System) (val : ℕ)
    → s.secondary ≡ told val
    → InOrder s
    → InOrder (record s { secondary = listening; heap = free val s.heap })
frees-InOrder s val e io =
    let before : Chain s.heap (val ∷ (s.ring ++ back s.primary)) io.first (next s.primary) =
      rw e at io.chain in
    let so : s.printed ≡ down_from (suc io.first) = rw e at io.told_so in
    let one : suc io.first ≡ io.first + 1 = omega arith in
    record {
      first = io.first + 1;
      chain =
          Chain-free s.heap (s.ring ++ back s.primary) (io.first + 1) (next s.primary) val io.first
            before.0 (omega arith) before.1;
      bound = io.bound;
      told_so = so ∙ ap down_from one;
    }

Step-InOrder : {s t : System} → Step s t → InOrder s → InOrder t
Step-InOrder {s} (fills i msg e lt unused) io = fills-InOrder s i msg e lt unused io
Step-InOrder {s} (sends i msg e room) io = sends-InOrder s i msg e io
Step-InOrder {s} (ends e) io = ends-InOrder s e io
Step-InOrder {s} (gets val rest e r) io = gets-InOrder s val rest e r io
Step-InOrder {s} (tells val v e holds) io = tells-InOrder s val v e holds io
Step-InOrder {s} (frees val e) io = frees-InOrder s val e io

Reachable-InOrder : {s t : System} → Reachable s t → InOrder s → InOrder t
Reachable-InOrder stays io = io
Reachable-InOrder (then_steps r step) io = Step-InOrder step (Reachable-InOrder r io)

launched-InOrder : InOrder launched
launched-InOrder = record { first = 0; chain = refl; bound = omega arith; told_so = refl }

Printed-down_from :
    (S : Secondary) (n : ℕ) (printed : List ℕ)
    → Printed S n printed
    → (k : ℕ) × (printed ≡ down_from k)
Printed-down_from listening n printed so = (n, so)
Printed-down_from (received val) n printed so = (n, so)
Printed-down_from (told val) n printed so = (suc n, so)

-- A block that was dequeued and not yet printed is in use.
abbrev pub Readable : Secondary → List (ℕ × ℕ) → Type 0
Readable (received val) heap = (v : ℕ) × (value_at val heap ≡ some v)
Readable _ heap = Unit {0}

Chain-Readable :
    (S : Secondary) (heap : List (ℕ × ℕ)) (l : List ℕ) (n e : ℕ)
    → Chain heap (front S ++ l) n e
    → Readable S heap
Chain-Readable listening heap l n e c = tt
Chain-Readable (received val) heap l n e c = (n, c.0)
Chain-Readable (told val) heap l n e c = tt

-- In every state that the two processes of ipc_ring_pri_sec reach, in any interleaving: the secondary has
-- printed the first numbers, 0, 1 and so on, in this order and none twice; a block that it has dequeued
-- and not yet printed is still in use; and the ring never holds more than ten pointers, fewer than its 1023.
pub ipc_ring-InOrder :
    (s : System)
    → Reachable launched s
    → ((n : ℕ) × (s.printed ≡ down_from n)) × Readable s.secondary s.heap × (length s.ring ≤ 10)
ipc_ring-InOrder s r =
    let io = Reachable-InOrder r launched-InOrder in
    let size = Chain-le s.heap (in_flight s) io.first (next s.primary) io.chain in
    (
      Printed-down_from s.secondary io.first s.printed io.told_so,
      Chain-Readable s.secondary s.heap (s.ring ++ back s.primary) io.first (next s.primary)
          io.chain,
      omega (
        arith,
        size,
        io.bound,
        length-append (front s.secondary) (s.ring ++ back s.primary),
        length-append s.ring (back s.primary),
      ),
    )

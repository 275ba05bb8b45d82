-- ===== src/Rcu/Safety/Places.antt =====
-- What each place of the writer of rcu_dpdk/main.c says of the blocks in use, and what carries over a step.
use mathlib.Core.Path.{subst}
use dpdk_folder.Dpdk.Malloc.{value_at, value_at-first, value_at-second}
use dpdk_folder.Prelude.{
  ℕ, ◌+◌, ◌≤◌, ◌≡◌, ◌≢◌, refl, sym, ◌∙◌, arith, true, List, [], ◌∷◌, Option, some, none, inl, inr,
}
use dpdk_folder.Rcu.Steps.{
  System, Reader, locked, holding, returned, Writer, at_round, allocated, swapped, synchronizing,
  synchronized, stopped, joined, cleaned, is_offline,
}
use dpdk_folder.Rcu.Safety.Invariant.{IsDescending, current, HeapIs, MayHold, ReaderIs, IsSafe}

pub IsDescending-le : (m n : ℕ) (l : List (Option ℕ)) → m ≤ n → IsDescending m l → IsDescending n l
IsDescending-le m n [] le d = tt
IsDescending-le m n (none ∷ l) le d = d
IsDescending-le m n (some v ∷ l) le d = (omega (arith, d.0), d.1)

pub heap_at : (s : System) (w : Writer) → s.writer ≡ w → IsSafe s → HeapIs w s
heap_at s w e h = subst (λ w. HeapIs w s) e h.heap

pub reading_at : (s : System) (r : Reader) → s.reader ≡ r → IsSafe s → ReaderIs r s
reading_at s r e h = subst (λ r. ReaderIs r s) e h.reading

-- A step of the writer: the value in `gdata` does not fall, and what was held may still be held.
pub reading_on :
    (s s' : System) (w w' : Writer) (r : Reader)
    → s.writer ≡ w
    → s'.writer ≡ w'
    → s'.printed ≡ s.printed
    → current w ≤ current w'
    → ((b v : ℕ) → r ≡ holding b → MayHold w s b v → MayHold w' s' b v)
    → ReaderIs r s
    → ReaderIs r s'
reading_on s s' w w' r e e' same le held = by_reader r held
  where
    elsewhere :
        IsDescending (current s.writer) s.printed → IsDescending (current s'.writer) s'.printed
    elsewhere d =
        rw (e', same)
          (IsDescending-le (current w) (current w') s.printed le
            (subst (λ w. IsDescending (current w) s.printed) e d))

    by_reader :
        (r : Reader)
        → ((b v : ℕ) → r ≡ holding b → MayHold w s b v → MayHold w' s' b v)
        → ReaderIs r s
        → ReaderIs r s'
    by_reader (holding d) held (v, may, desc) = (
      v,
      subst (λ w. MayHold w s' d v) (sym e') (held d v refl (subst (λ w. MayHold w s d v) e may)),
      rw same desc,
    )
    by_reader _ held h = elsewhere h

-- What may be held does not depend on where the reader is.
pub holds_on :
    (w : Writer) (s : System) (r : Reader) (b v : ℕ)
    → MayHold w s b v
    → MayHold w (record s { reader = r }) b v
holds_on (at_round i) s r b v m = m
holds_on _ s r b v m = m

-- What is loaded may be held, and what may be held is in use.
pub loaded :
    (w : Writer) (s : System) → HeapIs w s → s.reader ≡ locked → MayHold w s s.gdata (current w)
loaded (at_round i) s h e = (refl, refl)
loaded (allocated i new) s h e = (refl, refl)
loaded (swapped i old) s h e = inl (refl, refl)
loaded (synchronizing i old) s h e = inl (refl, refl)
loaded (synchronized i old) s h e = (refl, refl)
loaded stopped s h e = (refl, refl)
loaded joined s h e = cc
loaded cleaned s h e = cc

pub in_use :
    (w : Writer) (s : System) (b v : ℕ)
    → HeapIs w s
    → MayHold w s b v
    → (value_at b s.heap ≡ some v) × (v ≤ current w)
in_use (at_round i) s b v h m = rw (h.0, m.0, m.1) (value_at-first s.gdata i [], omega arith)
in_use (allocated i new) s b v h m =
    rw (h.0, m.0, m.1) (value_at-second new s.gdata (i + 1) i [] h.3 ∙ refl, omega arith)
in_use (swapped i old) s b v h (inl m) =
    rw (h.0, m.0, m.1) (value_at-first s.gdata (i + 1) ((old, i) ∷ []), omega arith)
in_use (swapped i old) s b v h (inr m) =
    rw (h.0, m.0, m.1) (value_at-second s.gdata old (i + 1) i [] h.2, omega arith)
in_use (synchronizing i old) s b v h (inl m) =
    rw (h.0, m.0, m.1) (value_at-first s.gdata (i + 1) ((old, i) ∷ []), omega arith)
in_use (synchronizing i old) s b v h (inr m) =
    rw (h.0, m.0, m.1) (value_at-second s.gdata old (i + 1) i [] h.2, omega arith)
in_use (synchronized i old) s b v h m =
    rw (h.0, m.0, m.1) (value_at-first s.gdata (i + 1) ((old, i) ∷ []), omega arith)
in_use stopped s b v h m = rw (h, m.0, m.1) (value_at-first s.gdata 5 [], omega arith)
in_use joined s b v h m = absurd m
in_use cleaned s b v h m = absurd m

-- A step of the reader leaves the heap as it is.
pub heap_on :
    (w : Writer) (s s' : System)
    → s'.heap ≡ s.heap
    → s'.gdata ≡ s.gdata
    → s.reader ≢ returned
    → HeapIs w s
    → HeapIs w s'
heap_on joined s s' e g ne h = absurd (ne h.1)
heap_on cleaned s s' e g ne h = absurd (ne h.1)
heap_on w s s' e g ne h = rw (e, g) h

pub still_old :
    (s : System) (i old b v : ℕ)
    → s.reader ≡ holding b
    → MayHold (swapped i old) s b v
    → MayHold
        (synchronizing i old)
        (record s { writer = synchronizing i old; quiet = is_offline s.reader })
        b
        v
still_old s i old b v e (inl m) = inl m
still_old s i old b v e (inr m) = inr (m.0, m.1, rw e refl)

pub only_new :
    (s : System) (i old b v : ℕ)
    → s.quiet ≡ true
    → MayHold (synchronizing i old) s b v
    → (b ≡ s.gdata) × (v ≡ i + 1)
only_new s i old b v q (inl m) = m
only_new s i old b v q (inr m) = cc

-- ===== src/Rcu/Safety/Keeps.antt =====
-- Each step of the writer and of the reader of rcu_dpdk/main.c keeps what is said of the blocks.
use mathlib.Core.Path.{subst}
use dpdk_folder.Dpdk.Malloc.{value_at, free-first, free-second, not_first}
use dpdk_folder.Prelude.{◌+◌, ◌≡◌, refl, arith, [], none, inr}
use dpdk_folder.Rcu.Steps.{
  System, launched, registered, looping, locked, holding, done_reading, unlocked, offline, at_round,
  allocated, swapped, synchronizing, synchronized, stopped, joined, cleaned, Step, registers,
  goes_online, locks, loads, prints, unlocks, reports_quiescent, goes_offline, unregisters,
  allocates, swaps, starts_synchronize, returns_from_synchronize, frees_old, stops, joins,
  cleans_up, Reachable, stays, then_steps,
}
use dpdk_folder.Rcu.Safety.Invariant.{current, IsSafe, WaitsForReader}
use dpdk_folder.Rcu.Safety.Places.{
  heap_at, reading_at, reading_on, holds_on, loaded, in_use, heap_on, still_old, only_new,
}

module _ (MayReturn : System → Type 0) (waits : WaitsForReader MayReturn) where
  Step-IsSafe : {s s' : System} → Step MayReturn s s' → IsSafe s → IsSafe s'
  Step-IsSafe {s} (registers e) h = record {
    heap = heap_on s.writer s _ refl refl (λ r. cc) h.heap;
    reading = reading_at s launched e h;
  }
  Step-IsSafe {s} (goes_online e) h = record {
    heap = heap_on s.writer s _ refl refl (λ r. cc) h.heap;
    reading = reading_at s registered e h;
  }
  Step-IsSafe {s} (locks e go) h = record {
    heap = heap_on s.writer s _ refl refl (λ r. cc) h.heap;
    reading = reading_at s looping e h;
  }
  Step-IsSafe {s} (loads e) h = record {
    heap = heap_on s.writer s _ refl refl (λ r. cc) h.heap;
    reading = (
      current s.writer,
      holds_on s.writer s _ _ _ (loaded s.writer s h.heap e),
      reading_at s locked e h,
    );
  }
  Step-IsSafe {s} (prints d e) h =
      let (v, may, desc) = reading_at s (holding d) e h in
      let (here, le) = in_use s.writer s d v h.heap may in
      record {
        heap = heap_on s.writer s _ refl refl (λ r. cc) h.heap;
        reading = rw here (le, desc);
      }
  Step-IsSafe {s} (unlocks e) h = record {
    heap = heap_on s.writer s _ refl refl (λ r. cc) h.heap;
    reading = reading_at s done_reading e h;
  }
  Step-IsSafe {s} (reports_quiescent e) h = record {
    heap = heap_on s.writer s _ refl refl (λ r. cc) h.heap;
    reading = reading_at s unlocked e h;
  }
  Step-IsSafe {s} (goes_offline e halt) h = record {
    heap = heap_on s.writer s _ refl refl (λ r. cc) h.heap;
    reading = reading_at s looping e h;
  }
  Step-IsSafe {s} (unregisters e) h = record {
    heap = heap_on s.writer s _ refl refl (λ r. cc) h.heap;
    reading = reading_at s offline e h;
  }
  Step-IsSafe {s} (allocates i new e lt unused) h =
      let (heap, le) = heap_at s (at_round i) e h in
      let apart = not_first new s.gdata i [] (subst (λ l. value_at new l ≡ none) heap unused) in
      record {
        heap = (rw heap refl, lt, apart.0, apart.1);
        reading =
            reading_on s _ (at_round i) (allocated i new) s.reader e refl refl (omega arith)
              (λ b v r m. m) h.reading;
      }
  Step-IsSafe {s} (swaps i new e) h =
      let (heap, lt, ne, ne') = heap_at s (allocated i new) e h in
      record {
        heap = (heap, lt, ne', ne);
        reading =
            reading_on s _ (allocated i new) (swapped i s.gdata) s.reader e refl refl (omega arith)
              (λ b v r m. inr m) h.reading;
      }
  Step-IsSafe {s} (starts_synchronize i old e) h = record {
    heap = heap_at s (swapped i old) e h;
    reading =
        reading_on s _ (swapped i old) (synchronizing i old) s.reader e refl refl (omega arith)
          (λ b v r m. still_old s i old b v r m) h.reading;
  }
  Step-IsSafe {s} (returns_from_synchronize i old e may) h = record {
    heap = heap_at s (synchronizing i old) e h;
    reading =
        reading_on s _ (synchronizing i old) (synchronized i old) s.reader e refl refl (omega arith)
          (λ b v r m. only_new s i old b v (waits s may) m) h.reading;
  }
  Step-IsSafe {s} (frees_old i old e) h =
      let (heap, lt, ne, ne') = heap_at s (synchronized i old) e h in
      record {
        heap = (rw heap (free-second s.gdata old (i + 1) i [] ne), omega arith);
        reading =
            reading_on s _ (synchronized i old) (at_round (i + 1)) s.reader e refl refl
              (omega arith) (λ b v r m. m) h.reading;
      }
  Step-IsSafe {s} (stops e) h = record {
    heap = (heap_at s (at_round 5) e h).0;
    reading =
        reading_on s _ (at_round 5) stopped s.reader e refl refl (omega arith) (λ b v r m. m)
          h.reading;
  }
  Step-IsSafe {s} (joins e back) h = record {
    heap = (heap_at s stopped e h, back);
    reading =
        reading_on s _ stopped joined s.reader e refl refl (omega arith) (λ b v r m. cc) h.reading;
  }
  Step-IsSafe {s} (cleans_up e) h =
      let (heap, back) = heap_at s joined e h in
      record {
        heap = (rw heap (free-first s.gdata 5 []), back);
        reading =
            reading_on s _ joined cleaned s.reader e refl refl (omega arith) (λ b v r m. cc)
              h.reading;
      }

  pub Reachable-IsSafe : {s s' : System} → Reachable MayReturn s s' → IsSafe s → IsSafe s'
  Reachable-IsSafe stays h = h
  Reachable-IsSafe (then_steps r step) h = Step-IsSafe step (Reachable-IsSafe r h)

-- ===== src/Rcu/Safety.antt =====
-- The reader never reads a block that was freed, and in the end every block is freed.
mod Invariant
mod Places
mod Keeps
pub use Invariant.{IsDescending, HeapIs, WaitsForReader}
use mathlib.Core.Path.{subst}
use dpdk_folder.Dpdk.Malloc.{
  value_at, value_at-first, value_at-second, free-first, free-second, not_first,
}
use dpdk_folder.Prelude.{
  ℕ, ◌+◌, ◌<◌, ◌≤◌, ◌==◌, ◌≡◌, ◌≢◌, refl, sym, ◌∙◌, arith, true, false, List, [], ◌∷◌, Option, some,
  none, ◌⊎◌, inl, inr,
}
use dpdk_folder.Rcu.Steps.{
  System, Reader, launched, registered, looping, locked, holding, done_reading, unlocked, offline,
  returned, Writer, at_round, allocated, swapped, synchronizing, synchronized, stopped, joined,
  cleaned, is_offline, Step, registers, goes_online, locks, loads, prints, unlocks,
  reports_quiescent, goes_offline, unregisters, allocates, swaps, starts_synchronize,
  returns_from_synchronize, frees_old, stops, joins, cleans_up, Reachable, stays, then_steps,
  started,
}
use Invariant.{current, ReaderIs, IsSafe}
use Places.{IsDescending-le, reading_at, in_use}
use Keeps.{Reachable-IsSafe}

current_le : (w : Writer) (s : System) → HeapIs w s → current w ≤ 5
current_le (at_round i) s h = h.1
current_le stopped s h = omega arith
current_le joined s h = omega arith
current_le cleaned s h = omega arith
current_le _ s h = omega (arith, h.1)

-- What was printed, behind a load as elsewhere.
printed_values : (r : Reader) (s : System) → s.reader ≡ r → IsSafe s → IsDescending 5 s.printed
printed_values r s e h = by_reader r (reading_at s r e h)
  where
    elsewhere : IsDescending (current s.writer) s.printed → IsDescending 5 s.printed
    elsewhere = IsDescending-le _ 5 s.printed (current_le s.writer s h.heap)

    by_reader : (r : Reader) → ReaderIs r s → IsDescending 5 s.printed
    by_reader (holding d) (v, may, desc) =
        IsDescending-le v 5 s.printed
          (omega (arith, (in_use s.writer s d v h.heap may).1, current_le s.writer s h.heap)) desc
    by_reader _ d = elsewhere d

-- If synchronize returns only once the reader has been quiescent since the call, then in every state that
-- the program reaches, in any interleaving, the reader has printed values only, each at most 5 and none
-- older than the one before it: it never reads a block that was freed. The blocks in use are those that
-- the writer's place in its code names, so that each block that it frees is in use when it does, and
-- none is left at the end.
pub rcu_reads_live :
    (MayReturn : System → Type 0) (block : ℕ) (s : System)
    → WaitsForReader MayReturn
    → Reachable MayReturn (started block) s
    → IsDescending 5 s.printed × HeapIs s.writer s
rcu_reads_live MayReturn block s waits r =
    let start : IsSafe (started block) = record { heap = (refl, omega arith); reading = tt } in
    let safe = Reachable-IsSafe MayReturn waits r start in
    (printed_values s.reader s refl safe, safe.heap)

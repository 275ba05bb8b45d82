-- ===== src/Reordering/Buffers/Counts.antt =====
-- Counts of what the reordering programs give to the reorder buffer and take from it.
use dpdk_folder.Prelude.{ℕ, ◌+◌, ◌==◌, is_neg, if◌then◌else◌, [], ◌∷◌}
use dpdk_folder.Dpdk.{Trace, int_of, burst_of, reorder_insert, reorder_drain}
use dpdk_folder.Dpdk.Ownership.{count, received, released}

-- How often a buffer was taken by the reorder buffer, refused by it, and handed out by it.
abbrev pub inserted : ℕ → Trace → ℕ
inserted a [] = 0
inserted a (int_of (reorder_insert _ _ m) x ∷ h) =
    (if is_neg x then 0 else if m.addr == a then 1 else 0) + inserted a h
inserted a (_ ∷ h) = inserted a h

abbrev pub refused : ℕ → Trace → ℕ
refused a [] = 0
refused a (int_of (reorder_insert _ _ m) x ∷ h) =
    (if is_neg x then (if m.addr == a then 1 else 0) else 0) + refused a h
refused a (_ ∷ h) = refused a h

abbrev pub drained : ℕ → Trace → ℕ
drained a [] = 0
drained a (burst_of (reorder_drain _ _) ms ∷ h) = count a ms + drained a h
drained a (_ ∷ h) = drained a h

abbrev pub got : ℕ → Trace → ℕ
got a h = received a h + drained a h

abbrev pub gave : ℕ → Trace → ℕ
gave a h = released a h + inserted a h

-- With what is lost.
abbrev pub gave_or_lost : ℕ → Trace → ℕ
gave_or_lost a h = gave a h + refused a h

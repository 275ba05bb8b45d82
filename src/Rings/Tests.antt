-- ===== src/Rings/Tests.antt =====
-- Runs of the ring programs.
use dpdk_folder.Prelude.{
  ℕ, pos, negsuc, ◌≡◌, ◌≢◌, ◌≤◌, length, refl, arith, ltb, if◌then◌else◌, [], none,
}
use dpdk_folder.Dpdk.Malloc.{value_at}
use dpdk_folder.Dpdk.{Driver}
use dpdk_folder.Rings.SetUp
use dpdk_folder.Rings.Ipc
use dpdk_folder.Rings.Ipc.Chains.{down_from}
use dpdk_folder.Rings.Ipc.InOrder.{Readable, ipc_ring-InOrder}
use dpdk_folder.Rings.Duplex.{
  System, Reachable, stays, then_steps, launched, fills, sends, notes, gets_reply, gets_message,
  computes, fills_reply, sends_reply,
}
use dpdk_folder.Rings.Duplex.Phases.{InPhase}
use dpdk_folder.Rings.Duplex.Replies.{duplex-InPhase}

not_stop : pos 0 ≢ negsuc 0
not_stop = λ e. cc

-- The first message is in block 4 and its reply in block `b`.
first_reply : (b : ℕ) → (s : System) × Reachable launched s
first_reply b = (
  _,
  then_steps
      (then_steps
        (then_steps
          (then_steps
            (then_steps
              (then_steps
                (then_steps (then_steps stays (fills 0 4 refl (omega arith) refl))
                  (sends 0 4 refl (omega arith)))
                (notes 0 4 refl))
              (gets_message 4 [] refl refl))
            (computes 4 (pos 0) refl refl not_stop))
          (fills_reply (pos 0) b refl refl))
        (sends_reply b refl (omega arith)))
      (gets_reply 0 4 b [] refl refl),
)

nothing_to_tell : value_at 4 (first_reply 6).0.heap ≡ none
unfolding first_reply
nothing_to_tell = refl

duplex-InPhase_example : InPhase (first_reply 6).0
duplex-InPhase_example = duplex-InPhase (first_reply 6).0 (first_reply 6).1

-- The secondary of ipc_ring_pri_sec holds block 4, and the second message is in block 5.
first_message : (s : Ipc.System) × Ipc.Reachable Ipc.launched s
first_message = (
  _,
  Ipc.then_steps
      (Ipc.then_steps
        (Ipc.then_steps (Ipc.then_steps Ipc.stays (Ipc.fills 0 4 refl (omega arith) refl))
          (Ipc.sends 0 4 refl (omega arith)))
        (Ipc.gets 4 [] refl refl))
      (Ipc.fills 1 5 refl (omega arith) refl),
)

ipc_ring-InOrder_example :
    ((n : ℕ) × (first_message.0.printed ≡ down_from n))
    × Readable first_message.0.secondary first_message.0.heap
    × (length first_message.0.ring ≤ 10)
ipc_ring-InOrder_example = ipc_ring-InOrder first_message.0 first_message.1

-- The rings are there from call 3 on.
abbrev late_rings : Driver
late_rings = record {
  int = λ n r. pos 0;
  word = λ n r. if ltb n 3 then 0 else 9;
  burst = λ n r. [];
}

late_rings-IsThereFrom : SetUp.IsThereFrom late_rings 3
late_rings-IsThereFrom n name le = ground arith

-- ===== src/Reordering/Tests.antt =====
-- The reordering programs, run on a driver.
use dpdk_folder.Prelude.{ℕ, pos, negsuc, ◌+◌, ◌==◌, if◌then◌else◌, ◌≡◌, refl, arith, List, [], ◌∷◌}
use dpdk_folder.Dpdk.{Mbuf, Driver, done, value_of, trace_of, machine, reorder_insert}
use dpdk_folder.Reordering.Program.{
  main1, main2, main3, packet_main, create_packet, insert_one, insert_each, insert_new,
  insert_unchecked, output_each, drain_all,
}
use dpdk_folder.Reordering.Buffers.{got, gave, refused, reorder_mains-Balance}

-- Every buffer is at address 3, the insertions of number 4 fail, and one packet is drained at call 18.
abbrev picky : Driver
picky = record {
  int = λ n r. elim r [ reorder_insert _ s _ ↦ if s == 4 then negsuc 0 else pos 0 | _ ↦ pos 0 ];
  word = λ n r. 3;
  burst = λ n r. if n == 18 then record { addr = 3; bytes = 0 ∷ 0 ∷ 0 ∷ 0 ∷ [] } ∷ [] else [];
}

abbrev no_data : ℕ → List ℕ
no_data m = []

abbrev by_address : Mbuf → ℕ
by_address m = m.addr

first_ends : value_of (main1 3 picky []) ≡ done (pos 0)
unfolding main1 packet_main create_packet insert_one insert_each output_each drain_all machine
first_ends = refl

third_loses : refused 3 (trace_of (main3 by_address picky [])) ≡ 1
unfolding main3 insert_new insert_unchecked output_each machine
third_loses = refl

reorder_mains-Balance_example :
    (got 3 (trace_of (main1 3 picky [])) ≡ gave 3 (trace_of (main1 3 picky [])))
    × (got 3 (trace_of (main2 no_data by_address 3 picky []))
        ≡ gave 3 (trace_of (main2 no_data by_address 3 picky [])))
    × (got 3 (trace_of (main3 by_address picky []))
        ≡ gave 3 (trace_of (main3 by_address picky []))
          + refused 3 (trace_of (main3 by_address picky [])))
reorder_mains-Balance_example = reorder_mains-Balance no_data by_address picky 3 3 (omega arith)

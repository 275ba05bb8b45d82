-- ===== src/Reordering/Buffers.antt =====
-- Where the buffers of the reordering programs go.
mod Counts
mod Inserts
mod Drains
pub use Counts.{got, gave, refused}
use dpdk_folder.Prelude.{
  pos, negsuc, ℕ, ℤ, zero, suc, ◌+◌, ◌==◌, ◌≡◌, ◌≢◌, refl, arith, is_neg, false, if◌then◌else◌,
  List, [], ◌∷◌, length, Bool-cases, inl, inr, ==_iff,
}
use dpdk_folder.Dpdk.{
  run, pktmbuf_free, ask_word, ask_burst, reorder_free, Mbuf, Driver, Trace, done, int_of, word_of,
  burst_of, did, M, ◌>>=◌, ◌>>◌, pure, trace_of, machine, reorder_insert, reorder_drain,
  pktmbuf_alloc, print,
}
use dpdk_folder.Dpdk.Ownership.{count, count_of_length, received, released}
use dpdk_folder.Dpdk.Loops.{Conserves}
use dpdk_folder.Dpdk.Balance
use dpdk_folder.Dpdk.Balance.{Balances, balance_rules}
use dpdk_folder.Reordering.Program.{
  create_packet, create_unset, insert_each, insert_one, insert_new, output_each, drain_all,
  packet_main, insert_unchecked, main1, main2, main3, u32_bytes, first_u32,
}
use Counts.{gave_or_lost, inserted, drained}
use Inserts.{
  Creates, create_packet-Creates, create_unset-Creates, insert_each-Balances,
  insert_unchecked-Balances,
}
use Drains.{drain_all-Balances, drain_once-Balances}

packet_main-Balances :
    (create : ℕ → ℕ → M Mbuf) (number_of : Mbuf → ℕ) (size : ℕ) (arrival_seq : List ℕ)
    (rounds a : ℕ)
    → ((mp seq : ℕ) → Creates a (create mp seq))
    → Balances (got a) (gave a) (packet_main create number_of size arrival_seq rounds)
unfolding packet_main
packet_main-Balances create number_of size arrival_seq rounds a c =
    search (balance_rules, insert_each-Balances, drain_all-Balances) depth 20

main3-Balances :
    (seqn_of : Mbuf → ℕ) (a : ℕ) → a ≢ 0 → Balances (got a) (gave_or_lost a) (main3 seqn_of)
unfolding main3
main3-Balances seqn_of a ne =
    search (balance_rules, insert_unchecked-Balances, drain_once-Balances) depth 20

-- For every driver, and however main ends or has got, reorder_packet and reorder_packet2 have freed a buffer or
-- left it in the reorder buffer as often as they allocated it or drained it; in reorder_2 this holds
-- only if the buffers count as well whose insertion failed: nothing frees them.
pub reorder_mains-Balance :
    (data_at : ℕ → List ℕ) (seqn_of : Mbuf → ℕ) (d : Driver) (rounds a : ℕ)
    → a ≢ 0
    → (got a (trace_of (main1 rounds d [])) ≡ gave a (trace_of (main1 rounds d [])))
      × (got a (trace_of (main2 data_at seqn_of rounds d []))
          ≡ gave a (trace_of (main2 data_at seqn_of rounds d [])))
      × (got a (trace_of (main3 seqn_of d []))
          ≡ gave a (trace_of (main3 seqn_of d [])) + refused a (trace_of (main3 seqn_of d [])))
unfolding main1 main2
reorder_mains-Balance data_at seqn_of d rounds a ne =
    let one =
      packet_main-Balances create_packet (λ m. first_u32 m.bytes) 16 (0 ∷ 2 ∷ 1 ∷ 4 ∷ 3 ∷ []) rounds
        a (λ mp seq. create_packet-Creates mp seq a ne) in
    let two =
      packet_main-Balances (create_unset data_at) seqn_of 4 (10 ∷ 35 ∷ 11 ∷ 12 ∷ []) rounds a
        (λ mp seq. create_unset-Creates data_at mp seq a ne) in
    let three = main3-Balances seqn_of a ne in
    (
      omega (arith, one.balance d []),
      omega (arith, two.balance d []),
      omega (arith, three.balance d []),
    )

-- ===== src/Reordering/Program.antt =====
-- The mains. What the reorder buffer hands out is the driver's answer; the data of a packet are kept as the
-- bytes of the number that is stored in it.
use dpdk_folder.Prelude.{
  ℕ, ℤ, zero, suc, pos, ◌+◌, ◌*◌, ◌/◌, ◌%◌, ◌==◌, is_neg, if◌then◌else◌, List, [], ◌∷◌, length,
}
use dpdk_folder.Dpdk.{
  Mbuf, M, ◌>>=◌, ◌>>◌, pure, function, exit_if, ask_int, ask_word, ask_burst, run, still_running,
  eal_init, pool_create, pktmbuf_alloc, pktmbuf_free, mbuf_dynfield_register, reorder_create,
  reorder_insert, reorder_drain, reorder_free, print,
}

-- `*(uint32_t *)data = seq`
abbrev pub u32_bytes : ℕ → List ℕ
u32_bytes n = n % 256 ∷ n / 256 % 256 ∷ n / 65536 % 256 ∷ n / 16777216 % 256 ∷ []

abbrev pub num_mbufs : ℕ
num_mbufs = 1024

abbrev pub mbuf_cache_size : ℕ
mbuf_cache_size = 32

abbrev pub burst : ℕ
burst = 32

-- `create_packet` of reorder_packet: 0 is NULL, also as the address of the packet.
unfoldable pub create_packet : (mp seq : ℕ) → M Mbuf
create_packet mp seq = do
  m ← ask_word (pktmbuf_alloc mp)
  if m == 0
      then pure (record { addr = 0; bytes = [] })
      else pure (record { addr = m; bytes = u32_bytes seq })

-- The body of the loop over `arrival_seq`, which tests the insertion and not the allocation.
unfoldable pub insert_one : (create : ℕ → M Mbuf) (reorder_buf seq : ℕ) → M (Unit {0})
insert_one create reorder_buf seq = do
  m ← create seq
  run (print "Insert seq=%u\n" (seq ∷ []))
  ret ← ask_int (reorder_insert reorder_buf seq m)
  if is_neg ret then run (pktmbuf_free m) else pure tt

unfoldable pub insert_each : (create : ℕ → M Mbuf) (reorder_buf : ℕ) → List ℕ → M (Unit {0})
insert_each create reorder_buf [] = pure tt
insert_each create reorder_buf (seq ∷ arrival_seq) = do
  insert_one create reorder_buf seq
  insert_each create reorder_buf arrival_seq

-- `for (i = 0; i < nb_drain; i++)`; the number that is printed is read from the packet or from its field.
unfoldable pub output_each : (number_of : Mbuf → ℕ) → List Mbuf → M (Unit {0})
output_each number_of [] = pure tt
output_each number_of (m ∷ mbufs) = do
  run (print "Output seq=%u\n" (number_of m ∷ []))
  run (pktmbuf_free m)
  output_each number_of mbufs

-- `while (1)` until nothing is drained; the result is `total_drained`.
unfoldable pub drain_all : (number_of : Mbuf → ℕ) (rounds reorder_buf total_drained : ℕ) → M ℕ
drain_all number_of zero reorder_buf total_drained = still_running
drain_all number_of (suc rounds) reorder_buf total_drained = do
  mbufs ← ask_burst (reorder_drain reorder_buf burst)
  if length mbufs == 0 then pure total_drained else (do
    output_each number_of mbufs
    drain_all number_of rounds reorder_buf (total_drained + length mbufs))

-- main of reorder_packet and of reorder_packet2, which differ in the size of the window, in the numbers and in
-- `create_packet`.
unfoldable pub packet_main :
    (create : ℕ → ℕ → M Mbuf) (number_of : Mbuf → ℕ) (size : ℕ) (arrival_seq : List ℕ) (rounds : ℕ)
    → M ℤ
packet_main create number_of size arrival_seq rounds = function do
  ret ← ask_int eal_init
  exit_if (is_neg ret)
  mbuf_pool ← ask_word (pool_create "MBUF_POOL" num_mbufs mbuf_cache_size)
  exit_if (mbuf_pool == 0)
  reorder_buf ← ask_word (reorder_create "REORDER_BUF" size)
  exit_if (reorder_buf == 0)
  insert_each (create mbuf_pool) reorder_buf arrival_seq
  total_drained ← drain_all number_of rounds reorder_buf 0
  run (print "Total packets drained: %d\n" (total_drained ∷ []))
  pure (pos 0)

-- `*seq` of a packet's data
abbrev pub first_u32 : List ℕ → ℕ
first_u32 (a ∷ b ∷ c ∷ d ∷ _) = a + (b + (c + d * 256) * 256) * 256
first_u32 _ = 0

-- reorder_packet/main.c
unfoldable pub main1 : (rounds : ℕ) → M ℤ
main1 = packet_main create_packet (λ m. first_u32 m.bytes) 16 (0 ∷ 2 ∷ 1 ∷ 4 ∷ 3 ∷ [])

-- `create_packet` of reorder_packet2 sets the lengths, and leaves the data as they are.
unfoldable pub create_unset : (data_at : ℕ → List ℕ) (mp seq : ℕ) → M Mbuf
create_unset data_at mp seq = do
  m ← ask_word (pktmbuf_alloc mp)
  if m == 0
      then pure (record { addr = 0; bytes = [] })
      else pure (record { addr = m; bytes = data_at m })

-- reorder_packet2/main.c; the data of a fresh buffer and the field of a drained one are parameters.
unfoldable pub main2 : (data_at : ℕ → List ℕ) (seqn_of : Mbuf → ℕ) (rounds : ℕ) → M ℤ
main2 data_at seqn_of = packet_main (create_unset data_at) seqn_of 4 (10 ∷ 35 ∷ 11 ∷ 12 ∷ [])

-- The loop of reorder_2/main.c and its body: the allocation is tested, the insertion is not.
unfoldable pub insert_new : (mp buf seq : ℕ) → M (Unit {0})
insert_new mp buf seq = do
  m ← ask_word (pktmbuf_alloc mp)
  exit_if (m == 0)
  run (print "Insert seq = %u\n" (seq ∷ []))
  ask_int (reorder_insert buf seq (record { addr = m; bytes = u32_bytes seq }))
  pure tt

unfoldable pub insert_unchecked : (mp buf : ℕ) → List ℕ → M (Unit {0})
insert_unchecked mp buf [] = pure tt
insert_unchecked mp buf (seq ∷ seq_list) = do
  insert_new mp buf seq
  insert_unchecked mp buf seq_list

-- main of reorder_2; `rte_panic` ends the process as `rte_exit` does. That it overwrites the library's
-- `rte_reorder_seqn_dynfield_offset` is left out.
unfoldable pub main3 : (seqn_of : Mbuf → ℕ) → M ℤ
main3 seqn_of = function do
  ret ← ask_int eal_init
  exit_if (is_neg ret)
  mp ← ask_word (pool_create "POOL" num_mbufs mbuf_cache_size)
  exit_if (mp == 0)
  seq_offset ← ask_int (mbuf_dynfield_register "example_seq_no")
  exit_if (is_neg seq_offset)
  buf ← ask_word (reorder_create "reorder" 8)
  exit_if (buf == 0)
  insert_unchecked mp buf (0 ∷ 2 ∷ 1 ∷ 4 ∷ 3 ∷ 6 ∷ 5 ∷ 7 ∷ [])
  out ← ask_burst (reorder_drain buf 8)
  output_each seqn_of out
  run (reorder_free buf)
  pure (pos 0)

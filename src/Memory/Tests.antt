-- ===== src/Memory/Tests.antt =====
-- The programs around one buffer, run on a library that does as documented.
use dpdk_folder.Prelude.{
  ℕ, zero, suc, pos, ◌+◌, ◌-◌, ◌≤◌, ◌<◌, ◌≡◌, refl, arith, ltb, leb, List, [], ◌∷◌, length,
  get_elem?, some, none, if◌then◌else◌, ap,
}
use dpdk_folder.Dpdk.{Driver, done, word_of, int_of, machine, eal_init, pool_create, pktmbuf_alloc}
use dpdk_folder.Memory.Buffers.{
  Buffer, BufferApi, IsFresh, headroom, tailroom, lengthened, shortened, moved_down, moved_up,
}
use dpdk_folder.Memory.Stores.{store_each}
use dpdk_folder.Memory.MemInfo2.{main, as_mbuf}
use dpdk_folder.Memory.MemInfo2.Shows.{mem_info2_main-Shows, demo_trace, final}
use dpdk_folder.Memory.MemPool.{
  write_message, print_message, print_chars, hello, print_message-write_message, printed,
}

abbrev zeros : ℕ → List ℕ
zeros zero = []
zeros (suc n) = 0 ∷ zeros n

length-zeros : (n : ℕ) → length (zeros n) ≡ n
length-zeros zero = refl
length-zeros (suc n) = ap suc (length-zeros n)

blank : ℕ → Buffer
blank p = record {
  addr = p;
  buf_addr = p + 128;
  buf_len = 2176;
  data_off = 128;
  data_len = 0;
  pkt_len = 0;
  memory = zeros 2176;
}

blank-IsFresh : (p : ℕ) → IsFresh p (blank p)
unfolding blank
blank-IsFresh p = record {
  addr = refl;
  buf_len = refl;
  data_off = refl;
  data_len = refl;
  pkt_len = refl;
  memory = length-zeros 2176;
}

if_fits : {A : Type 0} (x y : A) (n m : ℕ) → n ≤ m → (if leb n m then x else y) ≡ x
if_fits x y n m le = ground arith

if_short : {A : Type 0} (x y : A) (n m : ℕ) → m < n → (if leb n m then x else y) ≡ y
if_short x y n m lt = ground arith

abbrev documented : BufferApi
documented = record {
  allocated = blank;
  append =
      λ m n. if leb n (tailroom m) then some (lengthened m n, m.data_off + m.data_len) else none;
  trim = λ m n. if leb n m.data_len then some (shortened m n) else none;
  prepend = λ m n. if leb n (headroom m) then some (moved_down m n, m.data_off - n) else none;
  adj = λ m n. if leb n m.data_len then some (moved_up m n) else none;
  allocated-IsFresh = blank-IsFresh;
  append-fits = λ m n le. if_fits _ _ n (tailroom m) le;
  append-full = λ m n lt. if_short _ _ n (tailroom m) lt;
  trim-fits = λ m n le. if_fits _ _ n m.data_len le;
  trim-short = λ m n lt. if_short _ _ n m.data_len lt;
  prepend-fits = λ m n le. if_fits _ _ n (headroom m) le;
  prepend-full = λ m n lt. if_short _ _ n (headroom m) lt;
  adj-fits = λ m n le. if_fits _ _ n m.data_len le;
  adj-short = λ m n lt. if_short _ _ n m.data_len lt;
}

-- Everything succeeds.
abbrev willing : Driver
willing = record { int = λ n r. pos 0; word = λ n r. 9; burst = λ n r. [] }

mem_info2_main-Shows_example :
    (main documented willing [] ≡ (
      done (pos 0),
      demo_trace 9 (blank 9).buf_addr (blank 9).memory (
          word_of (pktmbuf_alloc 9) 9
          ∷ word_of (pool_create "MBUF_POOL" 1024 256) 9
          ∷ int_of eal_init (pos 0)
          ∷ []),
    ))
    × (length (as_mbuf (final 9 (blank 9).buf_addr (blank 9).memory)).bytes ≡ 70)
    × (get_elem? (as_mbuf (final 9 (blank 9).buf_addr (blank 9).memory)).bytes 12
        ≡ some (if ltb 12 10 then 170 else 12 - 10))
mem_info2_main-Shows_example =
    mem_info2_main-Shows documented willing 12 refl refl refl (omega arith)

-- A buffer of twelve bytes, with the message at offset four.
abbrev small : Buffer
small = record {
  addr = 5;
  buf_addr = 40;
  buf_len = 12;
  data_off = 4;
  data_len = 0;
  pkt_len = 0;
  memory = zeros 12;
}

says_hello : print_message (write_message hello small) willing [] ≡ (done tt, printed hello [])
unfolding print_message print_chars write_message store_each machine
says_hello = refl

print_message-write_message_example :
    print_message (write_message hello small) willing [] ≡ (done tt, printed hello [])
print_message-write_message_example =
    print_message-write_message hello small willing [] (omega arith)

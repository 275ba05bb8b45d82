-- ===== src/Memory/MemInfo2.antt =====
-- mem_info2/main.c: main grows and shrinks the packet of one buffer at both ends and prints it each time.
use Prim.Native.String.{String}
use dpdk_folder.Prelude.{
  ℕ, ℤ, pos, negsuc, ◌+◌, ◌==◌, is_neg, u8, u32, List, [], ◌∷◌, Option, some, none,
}
use dpdk_folder.Dpdk.{
  Mbuf, M, ◌>>=◌, ◌>>◌, pure, return, return_if, function, ask_int, ask_word, run, eal_init,
  pool_create, pktmbuf_alloc, pktmbuf_free, print,
}
pub mod Shows
use dpdk_folder.Memory.Buffers.{Buffer, BufferApi, headroom, tailroom, data_of}
use dpdk_folder.Memory.Stores.{store_each}

-- The numbers that it prints, without their labels. Of an address, `%d` shows the low 32 bits.
unfoldable pub mbuf_info : Buffer → List ℕ
mbuf_info m =
    m.pkt_len
    ∷ m.data_len
    ∷ headroom m
    ∷ tailroom m
    ∷ m.data_off
    ∷ u32 m.buf_addr
    ∷ u32 (m.buf_addr + m.data_off)
    ∷ u32 (m.buf_addr + m.data_off)
    ∷ []

unfoldable pub print_mbuf_info : String → Buffer → M (Unit {0})
print_mbuf_info msg m = run (print msg (mbuf_info m))

-- `if (result is NULL or negative) return -1;`
unfoldable pub or_fail : {A : Type 0} → Option A → M A
or_fail none = return (negsuc 0)
or_fail (some a) = pure a

-- The buffer as it is handed over: its pointer and its packet.
abbrev pub as_mbuf : Buffer → Mbuf
as_mbuf m = record { addr = m.addr; bytes = data_of m }

module _ (api : BufferApi) where
  -- From the first print on.
  unfoldable pub demo : Buffer → M ℤ
  demo m = do
    print_mbuf_info "After allocation" m
    appended ← or_fail (api.append m 100)
    let m1 = appended.0
    let m2 = record m1 { memory = store_each 100 0 appended.1 u8 m1.memory }
    print_mbuf_info "After append 100 bytes" m2
    m3 ← or_fail (api.trim m2 40)
    print_mbuf_info "After trim 40 bytes" m3
    prepended ← or_fail (api.prepend m3 20)
    let m4 = prepended.0
    let m5 = record m4 { memory = store_each 20 0 prepended.1 (λ i. 170) m4.memory }
    print_mbuf_info "After prepend 20 bytes" m5
    m6 ← or_fail (api.adj m5 10)
    print_mbuf_info "After adj remove 10 bytes from start" m6
    run (pktmbuf_free (as_mbuf m6))
    pure (pos 0)

  unfoldable pub main : M ℤ
  main = function do
    ret ← ask_int eal_init
    return_if (is_neg ret) (negsuc 0)
    mbuf_pool ← ask_word (pool_create "MBUF_POOL" 1024 256)
    return_if (mbuf_pool == 0) (negsuc 0)
    m ← ask_word (pktmbuf_alloc mbuf_pool)
    return_if (m == 0) (negsuc 0)
    demo (api.allocated m)

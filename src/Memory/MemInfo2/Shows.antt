-- ===== src/Memory/MemInfo2/Shows.antt =====
-- What mem_info2/main.c prints and frees.
use dpdk_folder.Prelude.{
  ℕ, pos, negsuc, ◌+◌, ◌-◌, ◌<◌, ◌≢◌, ◌≡◌, refl, arith, ◌==◌, ltb, is_neg, u8, u32, List, [], ◌∷◌,
  some, length, get_elem?, drop, if◌then◌else◌, Bool-cases, inl, inr, ◌⊎◌, ap, length-take,
  length-drop, ◌∙◌, false,
}
use dpdk_folder.Dpdk.{
  Driver, Trace, done, did, print, pktmbuf_free, pktmbuf_alloc, machine, value_of, trace_of,
  eal_init, pool_create, word_of, int_of,
}
use dpdk_folder.Dpdk.Ownership.{received, released}
use dpdk_folder.Memory.Buffers.{Buffer, BufferApi, IsFresh, lengthened, shortened, moved_down}
use dpdk_folder.Memory.Stores.{
  store_each, length-store_each, get-store_each, get-store_each_outside, get-take, get-drop,
}
use dpdk_folder.Memory.MemInfo2.{main, demo, as_mbuf, or_fail, print_mbuf_info, mbuf_info}

-- The numbers of a print, for a packet of `len` bytes at offset `off` in a buffer at `a`.
abbrev pub shown : (a len off tail : ℕ) → List ℕ
shown a len off tail = len ∷ len ∷ off ∷ tail ∷ off ∷ u32 a ∷ u32 (a + off) ∷ u32 (a + off) ∷ []

-- The memory after both loops of stores, and the buffer that is freed.
abbrev pub written : List ℕ → List ℕ
written mem = store_each 20 0 108 (λ i. 170) (store_each 100 0 128 u8 mem)

abbrev pub final : (p a : ℕ) → List ℕ → Buffer
final p a mem = record {
  addr = p;
  buf_addr = a;
  buf_len = 2176;
  data_off = 118;
  data_len = 70;
  pkt_len = 70;
  memory = written mem;
}

abbrev fresh : (p a : ℕ) → List ℕ → Buffer
fresh p a mem = record {
  addr = p;
  buf_addr = a;
  buf_len = 2176;
  data_off = 128;
  data_len = 0;
  pkt_len = 0;
  memory = mem;
}

fresh_lem : (p : ℕ) (m : Buffer) → IsFresh p m → m ≡ fresh p m.buf_addr m.memory
fresh_lem p m f = λ i. record {
  addr = f.addr i;
  buf_addr = m.buf_addr;
  buf_len = f.buf_len i;
  data_off = f.data_off i;
  data_len = f.data_len i;
  pkt_len = f.pkt_len i;
  memory = m.memory;
}

-- The trace of the demonstration, the newest call first.
abbrev pub demo_trace : (p a : ℕ) → List ℕ → Trace → Trace
demo_trace p a mem h =
    did (pktmbuf_free (as_mbuf (final p a mem)))
    ∷ did (print "After adj remove 10 bytes from start" (shown a 70 118 1988))
    ∷ did (print "After prepend 20 bytes" (shown a 80 108 1988))
    ∷ did (print "After trim 40 bytes" (shown a 60 128 1988))
    ∷ did (print "After append 100 bytes" (shown a 100 128 1948))
    ∷ did (print "After allocation" (shown a 0 128 2048))
    ∷ h

demo_lem :
    (api : BufferApi) (d : Driver) (h : Trace) (p a : ℕ) (mem : List ℕ)
    → demo api (fresh p a mem) d h ≡ (done (pos 0), demo_trace p a mem h)
unfolding demo machine or_fail print_mbuf_info mbuf_info
demo_lem api d h p a mem =
    let m2 : Buffer = record (lengthened (fresh p a mem) 100) {
      memory = store_each 100 0 128 u8 mem;
    } in
    let m5 : Buffer = record (moved_down (shortened m2 40) 20) { memory = written mem } in
    rw (api.append-fits (fresh p a mem) 100 (omega arith)) (
      rw (api.trim-fits m2 40 (omega arith)) (
        rw (api.prepend-fits (shortened m2 40) 20 (omega arith))
          (rw (api.adj-fits m5 10 (omega arith)) refl)))

written-get :
    (k : ℕ) (mem : List ℕ)
    → length mem ≡ 2176
    → k < 70
    → get_elem? (written mem) (118 + k) ≡ some (if ltb k 10 then 170 else k - 10)
written-get k mem len lt =
    let mem1 = store_each 100 0 128 u8 mem in
    let len1 : length mem1 ≡ 2176 = length-store_each 100 0 128 u8 mem ∙ len in
    elim (Bool-cases (ltb k 10)) [
      | inl e ↦
          let at : 118 + k ≡ 108 + (10 + k) = omega arith in
          rw (e, at)
            (get-store_each 20 0 108 (10 + k) (λ i. 170) mem1 (omega arith) (ground arith)
              (omega (arith, len1)))
      | inr e ↦
          let at : 118 + k ≡ 128 + (k - 10) = ground arith in
          let byte : u8 (k - 10) ≡ k - 10 = omega arith in
          rw e (
            get-store_each_outside 20 0 108 (118 + k) (λ i. 170) mem1 (inr (ground arith))
            ∙ (ap (get_elem? mem1) at
                ∙ (get-store_each 100 0 128 (k - 10) u8 mem (omega arith) (omega arith)
                      (omega (arith, len))
                    ∙ ap some byte)))
    ]

-- The packet that is freed: ten bytes of the new header, and the first sixty of the appended ones.
final-bytes :
    (p a k : ℕ) (mem : List ℕ)
    → length mem ≡ 2176
    → k < 70
    → get_elem? (as_mbuf (final p a mem)).bytes k ≡ some (if ltb k 10 then 170 else k - 10)
final-bytes p a k mem len lt =
    get-take 70 k (drop 118 (written mem)) lt
    ∙ (get-drop 118 k (written mem) ∙ written-get k mem len lt)

length-final-bytes :
    (p a : ℕ) (mem : List ℕ) → length mem ≡ 2176 → length (as_mbuf (final p a mem)).bytes ≡ 70
length-final-bytes p a mem len = omega (
  arith,
  length-take 70 (drop 118 (written mem)),
  length-drop 118 (written mem),
  length-store_each 20 0 108 (λ i. 170) (store_each 100 0 128 u8 mem),
  length-store_each 100 0 128 u8 mem,
)

-- Where the EAL starts and both the pool and the buffer can be had, main of mem_info2/main.c returns 0. It
-- prints 0, 100, 60, 80 and 70 bytes, with the headroom, tailroom, offset and addresses that belong to
-- them, and frees its buffer with the 70 bytes that it has left: ten times 0xAA, then 0 … 59.
pub mem_info2_main-Shows :
    (api : BufferApi) (d : Driver) (k : ℕ)
    → is_neg (d.int 0 eal_init) ≡ false
    → (d.word 1 (pool_create "MBUF_POOL" 1024 256) == 0) ≡ false
    → (d.word 2 (pktmbuf_alloc (d.word 1 (pool_create "MBUF_POOL" 1024 256))) == 0) ≡ false
    → k < 70
    → let pool = d.word 1 (pool_create "MBUF_POOL" 1024 256) in
      let p = d.word 2 (pktmbuf_alloc pool) in
      let m = api.allocated p in
      (main api d [] ≡ (
        done (pos 0),
        demo_trace p m.buf_addr m.memory (
            word_of (pktmbuf_alloc pool) p
            ∷ word_of (pool_create "MBUF_POOL" 1024 256) pool
            ∷ int_of eal_init (d.int 0 eal_init)
            ∷ []),
      ))
      × (length (as_mbuf (final p m.buf_addr m.memory)).bytes ≡ 70)
      × (get_elem? (as_mbuf (final p m.buf_addr m.memory)).bytes k
          ≡ some (if ltb k 10 then 170 else k - 10))
unfolding main machine
mem_info2_main-Shows api d k init pool alloc lt =
    let p = d.word 2 (pktmbuf_alloc (d.word 1 (pool_create "MBUF_POOL" 1024 256))) in
    let m = api.allocated p in
    let f = api.allocated-IsFresh p in
    (
      rw (init, pool, alloc, fresh_lem p m f, demo_lem api d _ p m.buf_addr m.memory) refl,
      length-final-bytes p m.buf_addr m.memory f.memory,
      final-bytes p m.buf_addr k m.memory f.memory lt,
    )

-- For every driver, main of mem_info2/main.c returns 0 or -1, and every buffer that it allocates it frees,
-- once: where the allocation succeeds, no later call fails.
pub mem_info2_main-Frees :
    (api : BufferApi) (d : Driver) (a : ℕ)
    → a ≢ 0
    → ((value_of (main api d []) ≡ done (pos 0)) ⊎ (value_of (main api d []) ≡ done (negsuc 0)))
      × (received a (trace_of (main api d [])) ≡ released a (trace_of (main api d [])))
unfolding main machine
mem_info2_main-Frees api d a ne =
    let pool = d.word 1 (pool_create "MBUF_POOL" 1024 256) in
    let p = d.word 2 (pktmbuf_alloc pool) in
    let m = api.allocated p in
    elim (Bool-cases (is_neg (d.int 0 eal_init))) [
      | inl e ↦ rw e (inr refl, refl)
      | inr e ↦ elim (Bool-cases (pool == 0)) [
        | inl e' ↦ rw (e, e') (inr refl, refl)
        | inr e' ↦ elim (Bool-cases (p == 0)) [
          | inl e'' ↦
              let other : (p == a) ≡ false = ground arith in
              rw (e, e', e'') (inr refl, rw other refl)
          | inr e'' ↦
              rw
                (
                  e,
                  e',
                  e'',
                  fresh_lem p m (api.allocated-IsFresh p),
                  demo_lem api d _ p m.buf_addr m.memory,
                )
                (inl refl, refl)
        ]
      ]
    ]

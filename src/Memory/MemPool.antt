-- ===== src/Memory/MemPool.antt =====
-- mem_pool: mem_pool.c makes a pool; mem_pool2.c writes a text into a buffer of its pool and prints it.
use dpdk_folder.Prelude.{
  ℕ, ℤ, zero, suc, pos, ◌+◌, ◌≤◌, ◌<◌, ◌==◌, ◌≡◌, refl, ap, ◌∙◌, arith, is_neg, List, [], ◌∷◌,
  length, get_or, get_elem?, some,
}
use dpdk_folder.Dpdk.{
  M, Driver, Trace, did, done, ◌>>=◌, ◌>>◌, pure, return_if, function, ask_int, ask_word, run,
  eal_init, pool_create, mempool_create, pktmbuf_alloc, print, machine,
}
use dpdk_folder.Memory.Buffers.{Buffer, BufferApi, default_buf_size}
use dpdk_folder.Memory.Stores.{store_each, get-store_each}

-- NUM_MBUF and MBUF_CACHE_SIZE of both files
abbrev pub num_mbuf : ℕ
num_mbuf = 8192

abbrev pub mbuf_cache_size : ℕ
mbuf_cache_size = 250

-- main of mem_pool.c
unfoldable pub pool_main : M ℤ
pool_main = function do
  ret ← ask_int eal_init
  return_if (is_neg ret) (pos 1)
  m_pool ← ask_word (pool_create "MEM_POOL" num_mbuf mbuf_cache_size)
  return_if (m_pool == 0) (pos 1)
  pure (pos 0)

-- `memcpy(data, msg, sizeof(msg))` and the lengths that are set after it. A message that fits into a
-- buffer, whose `buf_len` is a uint16_t, has a length that fits into one as well.
unfoldable pub write_message : List ℕ → Buffer → Buffer
write_message msg mbuf = record mbuf {
  data_len = length msg;
  pkt_len = length msg;
  memory = store_each (length msg) 0 mbuf.data_off (λ i. get_or msg i 0) mbuf.memory;
}

-- `for (int i = 0; i < len; i++) printf("%c", data2[i]);`
unfoldable pub print_chars : (left i : ℕ) → Buffer → M (Unit {0})
print_chars zero i mbuf = pure tt
print_chars (suc left) i mbuf = do
  run (print "%c" (get_or mbuf.memory (mbuf.data_off + i) 0 ∷ []))
  print_chars left (suc i) mbuf

unfoldable pub print_message : Buffer → M (Unit {0})
print_message mbuf = print_chars mbuf.data_len 0 mbuf

-- `char msg[] = "hello"`, with its NUL
abbrev pub hello : List ℕ
hello = 104 ∷ 101 ∷ 108 ∷ 108 ∷ 111 ∷ 0 ∷ []

-- `sizeof(struct rte_mbuf)`
abbrev pub sizeof_mbuf : ℕ
sizeof_mbuf = 128

-- main of mem_pool2.c
unfoldable pub message_main : BufferApi → M ℤ
message_main api = function do
  ret ← ask_int eal_init
  return_if (is_neg ret) (pos 1)
  m_pool ←
      ask_word (mempool_create "MEM_POOL" num_mbuf (default_buf_size + sizeof_mbuf) mbuf_cache_size)
  return_if (m_pool == 0) (pos 1)
  mbuf ← ask_word (pktmbuf_alloc m_pool)
  return_if (mbuf == 0) (pos 1)
  print_message (write_message hello (api.allocated mbuf))
  pure (pos 0)

-- The prints of these characters, the newest last in the list.
abbrev pub printed : List ℕ → Trace → Trace
printed [] h = h
printed (c ∷ cs) h = printed cs (did (print "%c" (c ∷ [])) ∷ h)

-- The elements from index `i` on, `left` of them.
abbrev slice : (left i : ℕ) → List ℕ → List ℕ
slice zero i xs = []
slice (suc left) i xs = get_or xs i 0 ∷ slice left (suc i) xs

slice-cons : (left i x : ℕ) (xs : List ℕ) → slice left (suc i) (x ∷ xs) ≡ slice left i xs
slice-cons zero i x xs = refl
slice-cons (suc left) i x xs = ap (λ ys. get_or xs i 0 ∷ ys) (slice-cons left (suc i) x xs)

slice-all : (xs : List ℕ) → slice (length xs) 0 xs ≡ xs
slice-all [] = refl
slice-all (x ∷ xs) = ap (λ ys. x ∷ ys) (slice-cons (length xs) 0 x xs ∙ slice-all xs)

get_or-get : (xs : List ℕ) (i v : ℕ) → get_elem? xs i ≡ some v → get_or xs i 0 ≡ v
get_or-get [] i v e = cc
get_or-get (x ∷ xs) zero v e = cc
get_or-get (x ∷ xs) (suc i) v e = get_or-get xs i v e

print_chars_lem :
    (left i : ℕ) (msg : List ℕ) (mbuf : Buffer) (d : Driver) (h : Trace)
    → ((k : ℕ) → i ≤ k → k < i + left → get_or mbuf.memory (mbuf.data_off + k) 0 ≡ get_or msg k 0)
    → print_chars left i mbuf d h ≡ (done tt, printed (slice left i msg) h)
unfolding print_chars machine
print_chars_lem zero i msg mbuf d h same = refl
print_chars_lem (suc left) i msg mbuf d h same =
    rw (same i (omega arith) (omega arith))
      (print_chars_lem left (suc i) msg mbuf d _ (λ k lo hi. same k (omega arith) (omega arith)))

-- Whatever message fits into the memory behind the data offset, print_message prints what write_message
-- has written: its characters, in order, and no other.
pub print_message-write_message :
    (msg : List ℕ) (mbuf : Buffer) (d : Driver) (h : Trace)
    → mbuf.data_off + length msg ≤ length mbuf.memory
    → print_message (write_message msg mbuf) d h ≡ (done tt, printed msg h)
unfolding print_message write_message
print_message-write_message msg mbuf d h fits =
    print_chars_lem (length msg) 0 msg (write_message msg mbuf) d h (λ k lo hi.
      get_or-get _ (mbuf.data_off + k) (get_or msg k 0) (
        get-store_each (length msg) 0 mbuf.data_off k (λ i. get_or msg i 0) mbuf.memory lo hi
          (omega (arith, fits))))
    ∙ ap (λ cs. (done tt, printed cs h)) (slice-all msg)

-- ===== src/Memory/Buffers.antt =====
-- `struct rte_mbuf` of one segment, with its memory, and the calls that move the borders of its data, as
-- their documentation describes them. The library's code is a parameter of what uses it.
use dpdk_folder.Prelude.{ℕ, ◌+◌, ◌-◌, ◌≤◌, ◌<◌, List, ◌≡◌, Option, some, none, length, take, drop}

-- `addr` is the pointer to the struct; `memory` holds the `buf_len` bytes at `buf_addr`.
pub record Buffer : Type 0 where
  pub addr : ℕ
  pub buf_addr : ℕ
  pub buf_len : ℕ
  pub data_off : ℕ
  pub data_len : ℕ
  pub pkt_len : ℕ
  pub memory : List ℕ

-- `rte_pktmbuf_headroom`, `rte_pktmbuf_tailroom`
abbrev pub headroom : Buffer → ℕ
headroom m = m.data_off

abbrev pub tailroom : Buffer → ℕ
tailroom m = m.buf_len - m.data_off - m.data_len

-- The bytes of the packet.
abbrev pub data_of : Buffer → List ℕ
data_of m = take m.data_len (drop m.data_off m.memory)

-- RTE_PKTMBUF_HEADROOM and RTE_MBUF_DEFAULT_BUF_SIZE
abbrev pub pktmbuf_headroom : ℕ
pktmbuf_headroom = 128

abbrev pub default_buf_size : ℕ
default_buf_size = 2176

-- What `rte_pktmbuf_alloc` gives: an empty packet behind the headroom, in memory of any content.
pub record IsFresh (pointer : ℕ) (m : Buffer) : Type 0 where
  pub addr : m.addr ≡ pointer
  pub buf_len : m.buf_len ≡ default_buf_size
  pub data_off : m.data_off ≡ pktmbuf_headroom
  pub data_len : m.data_len ≡ 0
  pub pkt_len : m.pkt_len ≡ 0
  pub memory : length m.memory ≡ default_buf_size

abbrev pub lengthened : Buffer → ℕ → Buffer
lengthened m n = record m { data_len = m.data_len + n; pkt_len = m.pkt_len + n }

abbrev pub shortened : Buffer → ℕ → Buffer
shortened m n = record m { data_len = m.data_len - n; pkt_len = m.pkt_len - n }

abbrev pub moved_down : Buffer → ℕ → Buffer
moved_down m n = record (lengthened m n) { data_off = m.data_off - n }

abbrev pub moved_up : Buffer → ℕ → Buffer
moved_up m n = record (shortened m n) { data_off = m.data_off + n }

-- A call fails by `none`. Its pointer is an index into the memory.
pub record BufferApi : Type 1 where
  -- the buffer behind a pointer that `rte_pktmbuf_alloc` returned
  pub allocated : ℕ → Buffer
  pub append : Buffer → ℕ → Option (Buffer × ℕ)
  pub trim : Buffer → ℕ → Option Buffer
  pub prepend : Buffer → ℕ → Option (Buffer × ℕ)
  pub adj : Buffer → ℕ → Option Buffer
  pub allocated-IsFresh : (p : ℕ) → IsFresh p (allocated p)
  pub append-fits :
      (m : Buffer) (n : ℕ)
      → n ≤ tailroom m
      → append m n ≡ some (lengthened m n, m.data_off + m.data_len)
  pub append-full : (m : Buffer) (n : ℕ) → tailroom m < n → append m n ≡ none
  pub trim-fits : (m : Buffer) (n : ℕ) → n ≤ m.data_len → trim m n ≡ some (shortened m n)
  pub trim-short : (m : Buffer) (n : ℕ) → m.data_len < n → trim m n ≡ none
  pub prepend-fits :
      (m : Buffer) (n : ℕ) → n ≤ headroom m → prepend m n ≡ some (moved_down m n, m.data_off - n)
  pub prepend-full : (m : Buffer) (n : ℕ) → headroom m < n → prepend m n ≡ none
  pub adj-fits : (m : Buffer) (n : ℕ) → n ≤ m.data_len → adj m n ≡ some (moved_up m n)
  pub adj-short : (m : Buffer) (n : ℕ) → m.data_len < n → adj m n ≡ none

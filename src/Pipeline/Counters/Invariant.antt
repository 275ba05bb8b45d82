-- ===== src/Pipeline/Counters/Invariant.antt =====
-- What the counters of the three threads of the packet pipeline say of the buffers.
use dpdk_folder.Prelude.{
  ℕ, ◌+◌, ◌≤◌, leb, List, length, take, arith, length-append, length-take, ◌≡◌, ap, Bool-cases, inl,
  inr,
}
use dpdk_folder.Dpdk.{Mbuf}
use dpdk_folder.Dpdk.RingApi.{RingApi}
use dpdk_folder.Pipeline.Steps.{Thread, polling, holding, finished, hand, after_round, System}

-- A counter that grows at the end of a round, against where its thread stands: below the limit inside
-- the loop, and never more than a burst beyond it.
abbrev pub InRange : Thread → ℕ → Type 0
InRange polling n = n ≤ 24
InRange (holding ms) n = (n ≤ 24) × (length ms ≤ 32)
InRange finished n = (25 ≤ n) × (n ≤ 56)

-- The parser's, which grows in the middle of a round.
abbrev pub ParserInRange : Thread → ℕ → Type 0
ParserInRange polling n = n ≤ 24
ParserInRange (holding ms) n = n ≤ 56
ParserInRange finished n = (25 ≤ n) × (n ≤ 56)

pub after_round-InRange : (n : ℕ) → n ≤ 56 → InRange (after_round n) n
after_round-InRange n h = elim (Bool-cases (leb 25 n)) [
  | inl e ↦ rw e (ground arith)
  | inr e ↦ rw e (ground arith)
]

pub after_round-ParserInRange : (n : ℕ) → n ≤ 56 → ParserInRange (after_round n) n
after_round-ParserInRange n h = elim (Bool-cases (leb 25 n)) [
  | inl e ↦ rw e (ground arith)
  | inr e ↦ rw e (ground arith)
]

module _ (api : RingApi) where
  open api use {Ring, contents, enqueue_burst, dequeue_burst}

  -- Every counter is in its range, and counts what it means to count: what the receiver counted is
  -- what the parser counted and what is still in the ring between them, and so on to the port.
  pub record Counted (s : System api) : Type 0 where
    pub rx_range : InRange s.receiver s.rx_packet
    pub pars_range : ParserInRange s.parser s.pars_packet
    pub tx_range : InRange s.transmitter s.tx_packet
    pub taken : s.rx_packet ≡ s.pars_packet + length (contents s.rx_to_parser)
    pub passed :
        s.pars_packet
        ≡ length (hand s.parser)
          + length s.leaked
          + length (contents s.parse_to_tx)
          + length (hand s.transmitter)
          + length s.sent
          + length s.freed_tx
    pub tx_sent : s.tx_packet ≡ length s.sent

  pub enqueue-length :
      (r : Ring) (ms : List Mbuf)
      → length (contents (enqueue_burst r ms).0) ≡ length (contents r) + (enqueue_burst r ms).1
  enqueue-length r ms = omega (
    arith,
    ap length (api.contents-enqueue r ms),
    length-append (contents r) (take (enqueue_burst r ms).1 ms),
    length-take (enqueue_burst r ms).1 ms,
    api.enqueue-le r ms,
  )

  pub dequeue-length :
      (r : Ring) (n : ℕ)
      → length (contents r) ≡ length (dequeue_burst r n).1 + length (contents (dequeue_burst r n).0)
  dequeue-length r n = omega (
    arith,
    ap length (api.contents-dequeue r n),
    length-append (dequeue_burst r n).1 (contents (dequeue_burst r n).0),
  )

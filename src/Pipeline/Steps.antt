-- ===== src/Pipeline/Steps.antt =====
-- The threads of packet_parseer_ring and their steps. A packet that is freed, sent, or forgotten is
-- recorded in the system's state.
use dpdk_folder.Prelude.{
  ◌≡◌, refl, Bool-cases, inl, inr, ℕ, ◌+◌, ◌≤◌, leb, ◌==◌, if◌then◌else◌, List, [], ◌++◌, length,
  take, drop,
}
use dpdk_folder.Dpdk.{Mbuf}
use dpdk_folder.Dpdk.RingApi.{RingApi}

-- Where a thread stands: before its first call of a round, between the two with a burst in hand, or
-- behind its loop.
pub data Thread : Type 0 where
  polling : Thread
  holding : List Mbuf → Thread
  finished : Thread

abbrev pub hand : Thread → List Mbuf
hand polling = []
hand (holding ms) = ms
hand finished = []

-- BURST_SIZE
abbrev pub burst_size : ℕ
burst_size = 32

-- `if (n >= 25) break;` at the end of a round
abbrev pub after_round : ℕ → Thread
after_round n = if leb 25 n then finished else polling

pub no_hand : (n : ℕ) → hand (after_round n) ≡ []
no_hand n = elim (Bool-cases (leb 25 n)) [ inl e ↦ rw e refl | inr e ↦ rw e refl ]

module _ (api : RingApi) where
  open api use {Ring, enqueue_burst, dequeue_burst}

  pub record System : Type 0 where
    pub receiver : Thread
    pub rx_packet : ℕ
    pub parser : Thread
    pub pars_packet : ℕ
    pub transmitter : Thread
    pub tx_packet : ℕ
    pub rx_to_parser : Ring
    pub parse_to_tx : Ring
    -- what the port delivered and took, oldest first
    pub received : List Mbuf
    pub sent : List Mbuf
    -- freed by the receiver, freed by the transmitter, dropped by the parser without `rte_pktmbuf_free`
    pub freed_rx : List Mbuf
    pub freed_tx : List Mbuf
    pub leaked : List Mbuf

  -- `receive_packet`, where `rte_eth_rx_burst` delivers `got`
  unfoldable pub receive_at : Thread → List Mbuf → System → System
  receive_at polling got s =
      if length got == 0
      then record s { receiver = after_round s.rx_packet }
      else record s { receiver = holding got; received = s.received ++ got }
  receive_at (holding packets) got s =
      let (ring, enq) = enqueue_burst s.rx_to_parser packets in
      record s {
        receiver = after_round (s.rx_packet + enq);
        rx_packet = s.rx_packet + enq;
        rx_to_parser = ring;
        freed_rx = s.freed_rx ++ drop enq packets;
      }
  receive_at finished got s = s

  -- `packet_parser`
  unfoldable pub parse_at : Thread → System → System
  parse_at polling s =
      let (ring, packets) = dequeue_burst s.rx_to_parser burst_size in
      if length packets == 0
      then record s { rx_to_parser = ring; parser = after_round s.pars_packet }
      else record s {
        rx_to_parser = ring;
        parser = holding packets;
        pars_packet = s.pars_packet + length packets;
      }
  parse_at (holding packets) s =
      let (ring, nb_tx) = enqueue_burst s.parse_to_tx packets in
      record s {
        parser = after_round s.pars_packet;
        parse_to_tx = ring;
        leaked = s.leaked ++ drop nb_tx packets;
      }
  parse_at finished s = s

  -- `transmit_packet`, where `rte_eth_tx_burst` takes `n` packets
  unfoldable pub transmit_at : Thread → ℕ → System → System
  transmit_at polling n s =
      let (ring, packets) = dequeue_burst s.parse_to_tx burst_size in
      record s {
        parse_to_tx = ring;
        transmitter = if length packets == 0 then polling else holding packets;
      }
  transmit_at (holding packets) n s = record s {
    transmitter = after_round (s.tx_packet + n);
    tx_packet = s.tx_packet + n;
    sent = s.sent ++ take n packets;
    freed_tx = s.freed_tx ++ drop n packets;
  }
  transmit_at finished n s = s

  -- One thread makes its next call. The port delivers at most a burst, and takes at most what it is
  -- given.
  pub data Step : System → System → Type 0 where
    receives :
        {s : System} (got : List Mbuf)
        → length got ≤ burst_size
        → Step s (receive_at s.receiver got s)
    parses : {s : System} → Step s (parse_at s.parser s)
    transmits :
        {s : System} (n : ℕ)
        → n ≤ length (hand s.transmitter)
        → Step s (transmit_at s.transmitter n s)

  pub data Reaches : System → System → Type 0 where
    stays : {s : System} → Reaches s s
    steps : {s t u : System} → Reaches s t → Step t u → Reaches s u

  -- The state in which main launches the threads.
  abbrev pub launched : Ring → Ring → System
  launched rx tx = record {
    receiver = polling;
    rx_packet = 0;
    parser = polling;
    pars_packet = 0;
    transmitter = polling;
    tx_packet = 0;
    rx_to_parser = rx;
    parse_to_tx = tx;
    received = [];
    sent = [];
    freed_rx = [];
    freed_tx = [];
    leaked = [];
  }

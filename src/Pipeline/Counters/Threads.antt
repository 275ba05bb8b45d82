-- ===== src/Pipeline/Counters/Threads.antt =====
-- Each step of a thread of the packet pipeline keeps what its counters say.
use dpdk_folder.Prelude.{
  ℕ, ◌+◌, ◌≤◌, ◌==◌, List, length, take, drop, arith, length-append, length-take, length-drop, ◌≡◌,
  ap, Bool-cases, inl, inr, ==_iff,
}
use dpdk_folder.Dpdk.{Mbuf}
use dpdk_folder.Dpdk.RingApi.{RingApi}
use dpdk_folder.Pipeline.Steps.{
  no_hand, Thread, polling, holding, finished, hand, burst_size, System, receive_at, parse_at,
  transmit_at,
}
use dpdk_folder.Pipeline.Counters.Invariant.{
  InRange, ParserInRange, after_round-InRange, after_round-ParserInRange, Counted, enqueue-length,
  dequeue-length,
}

module _ (api : RingApi) where
  open api use {Ring, contents, enqueue_burst, dequeue_burst}

  -- A thread changes its own place and counter, a ring, and where buffers went: what it says of these is
  -- all that there is to show.
  module _ {s : System api} (c : Counted api s) where
    by_receiver :
        {t : Thread} {n : ℕ} {r : Ring} {received freed : List Mbuf}
        → InRange t n
        → n ≡ s.pars_packet + length (contents r)
        → Counted api (record s {
          receiver = t;
          rx_packet = n;
          rx_to_parser = r;
          received = received;
          freed_rx = freed;
        })
    by_receiver range taken = record {
      rx_range = range;
      pars_range = c.pars_range;
      tx_range = c.tx_range;
      taken = taken;
      passed = c.passed;
      tx_sent = c.tx_sent;
    }

    by_parser :
        {t : Thread} {n : ℕ} {r₁ r₂ : Ring} {leaked : List Mbuf}
        → ParserInRange t n
        → s.rx_packet ≡ n + length (contents r₁)
        → n
          ≡ length (hand t)
            + length leaked
            + length (contents r₂)
            + length (hand s.transmitter)
            + length s.sent
            + length s.freed_tx
        → Counted api (record s {
          parser = t;
          pars_packet = n;
          rx_to_parser = r₁;
          parse_to_tx = r₂;
          leaked = leaked;
        })
    by_parser range taken passed = record {
      rx_range = c.rx_range;
      pars_range = range;
      tx_range = c.tx_range;
      taken = taken;
      passed = passed;
      tx_sent = c.tx_sent;
    }

    by_transmitter :
        {t : Thread} {n : ℕ} {r : Ring} {sent freed : List Mbuf}
        → InRange t n
        → length (contents r) + length (hand t) + length sent + length freed
          ≡ length (contents s.parse_to_tx)
            + length (hand s.transmitter)
            + length s.sent
            + length s.freed_tx
        → n ≡ length sent
        → Counted api (record s {
          transmitter = t;
          tx_packet = n;
          parse_to_tx = r;
          sent = sent;
          freed_tx = freed;
        })
    by_transmitter range moved counted = record {
      rx_range = c.rx_range;
      pars_range = c.pars_range;
      tx_range = range;
      taken = c.taken;
      passed = omega (arith, c.passed, moved);
      tx_sent = counted;
    }

  pub receive-Counted :
      (s : System api) (t : Thread) (got : List Mbuf)
      → length got ≤ burst_size
      → s.receiver ≡ t
      → InRange t s.rx_packet
      → Counted api s
      → Counted api (receive_at api t got s)
  unfolding receive_at
  receive-Counted s polling got h e r c = elim (Bool-cases (length got == 0)) [
    | inl z ↦ rw z (by_receiver c (after_round-InRange _ (omega arith)) c.taken)
    | inr z ↦ rw z (by_receiver c (r, h) c.taken)
  ]
  receive-Counted s (holding ms) got h e r c =
      by_receiver c
        (after_round-InRange _ (omega (arith, r.0, r.1, api.enqueue-le s.rx_to_parser ms)))
        (omega (arith, c.taken, enqueue-length api s.rx_to_parser ms))
  receive-Counted s finished got h e r c = c

  -- The length of a hand, before a step.
  in_hand : {t t' : Thread} → t ≡ t' → length (hand t) ≡ length (hand t')
  in_hand e = ap (λ t. length (hand t)) e

  pub parse-Counted :
      (s : System api) (t : Thread)
      → s.parser ≡ t
      → ParserInRange t s.pars_packet
      → Counted api s
      → Counted api (parse_at api t s)
  unfolding parse_at
  parse-Counted s polling e r c =
      let ms = (dequeue_burst s.rx_to_parser burst_size).1 in
      let left = dequeue-length api s.rx_to_parser burst_size in
      elim (Bool-cases (length ms == 0)) [
        | inl z ↦ rw z (
            by_parser c (after_round-ParserInRange _ (omega arith))
              (omega (arith, c.taken, left, (==_iff (length ms) 0).0 z))
              (omega (arith, c.passed, in_hand e, ap length (no_hand s.pars_packet))))
        | inr z ↦ rw z (
            by_parser c (omega (arith, r, api.dequeue-le s.rx_to_parser burst_size))
              (omega (arith, c.taken, left)) (omega (arith, c.passed, in_hand e)))
      ]
  parse-Counted s (holding ms) e r c =
      let n = (enqueue_burst s.parse_to_tx ms).1 in
      by_parser c (after_round-ParserInRange _ r) c.taken (
        omega (
          arith,
          c.passed,
          in_hand e,
          ap length (no_hand s.pars_packet),
          enqueue-length api s.parse_to_tx ms,
          api.enqueue-le s.parse_to_tx ms,
          length-append s.leaked (drop n ms),
          length-drop n ms,
        ))
  parse-Counted s finished e r c = c

  pub transmit-Counted :
      (s : System api) (t : Thread) (n : ℕ)
      → n ≤ length (hand t)
      → s.transmitter ≡ t
      → InRange t s.tx_packet
      → Counted api s
      → Counted api (transmit_at api t n s)
  unfolding transmit_at
  transmit-Counted s polling n h e r c =
      let ms = (dequeue_burst s.parse_to_tx burst_size).1 in
      let left = dequeue-length api s.parse_to_tx burst_size in
      elim (Bool-cases (length ms == 0)) [
        | inl z ↦ rw z (
            by_transmitter c r (omega (arith, in_hand e, left, (==_iff (length ms) 0).0 z))
              c.tx_sent)
        | inr z ↦ rw z (
            by_transmitter c (r, api.dequeue-le s.parse_to_tx burst_size)
              (omega (arith, in_hand e, left)) c.tx_sent)
      ]
  transmit-Counted s (holding ms) n h e r c =
      let grown = length-append s.sent (take n ms) in
      let part = length-take n ms in
      by_transmitter c (after_round-InRange _ (omega (arith, h, r.0, r.1)))
        (omega (
          arith,
          in_hand e,
          ap length (no_hand (s.tx_packet + n)),
          h,
          grown,
          part,
          length-append s.freed_tx (drop n ms),
          length-drop n ms,
        ))
        (omega (arith, c.tx_sent, h, grown, part))
  transmit-Counted s finished n h e r c = c

-- ===== src/Pipeline/Owners.antt =====
-- Where the buffers of the pipeline end, on every interleaving of the threads.
use dpdk_folder.Prelude.{
  ℕ, ◌+◌, ◌==◌, List, [], length, take, drop, arith, ◌≡◌, refl, ap, Bool-cases, inl, inr, ==_iff,
}
use dpdk_folder.Dpdk.{Mbuf}
use dpdk_folder.Dpdk.Ownership.{count, count-append, count-take-drop, count_of_length}
use dpdk_folder.Dpdk.RingApi.{RingApi}
use dpdk_folder.Pipeline.Steps.{
  no_hand, Thread, polling, holding, finished, hand, burst_size, System, receive_at, parse_at,
  transmit_at, Step, receives, parses, transmits, Reaches, stays, steps, launched,
}

module _ (api : RingApi) where
  open api use {Ring, contents, enqueue_burst, dequeue_burst}

  -- How often a buffer is in a hand or a ring, was sent, was freed, or was dropped by the parser.
  abbrev pub places : ℕ → System api → ℕ
  places a s =
      count a (hand s.receiver)
      + count a (contents s.rx_to_parser)
      + count a (hand s.parser)
      + count a (contents s.parse_to_tx)
      + count a (hand s.transmitter)
      + count a s.sent
      + count a s.freed_rx
      + count a s.freed_tx
      + count a s.leaked

  abbrev Accounted : ℕ → System api → Type 0
  Accounted a s = count a s.received ≡ places a s

  count-enqueue :
      (a : ℕ) (r : Ring) (ms : List Mbuf)
      → count a (contents (enqueue_burst r ms).0) + count a (drop (enqueue_burst r ms).1 ms)
        ≡ count a (contents r) + count a ms
  count-enqueue a r ms = omega (
    arith,
    ap (count a) (api.contents-enqueue r ms),
    count-append a (contents r) (take (enqueue_burst r ms).1 ms),
    count-take-drop a (enqueue_burst r ms).1 ms,
  )

  count-dequeue :
      (a n : ℕ) (r : Ring)
      → count a (contents r)
        ≡ count a (dequeue_burst r n).1 + count a (contents (dequeue_burst r n).0)
  count-dequeue a n r = omega (
    arith,
    ap (count a) (api.contents-dequeue r n),
    count-append a (dequeue_burst r n).1 (contents (dequeue_burst r n).0),
  )

  module _ (a : ℕ) where
    in_hand : {t t' : Thread} → t ≡ t' → count a (hand t) ≡ count a (hand t')
    in_hand e = ap (λ t. count a (hand t)) e

    receive-Accounted :
        (s : System api) (t : Thread) (got : List Mbuf)
        → s.receiver ≡ t
        → Accounted a s
        → Accounted a (receive_at api t got s)
    unfolding receive_at
    receive-Accounted s polling got e c = elim (Bool-cases (length got == 0)) [
      | inl z ↦ rw z (omega (arith, c, in_hand e, ap (count a) (no_hand s.rx_packet)))
      | inr z ↦ rw z (omega (arith, c, in_hand e, count-append a s.received got))
    ]
    receive-Accounted s (holding ms) got e c =
        let n = (enqueue_burst s.rx_to_parser ms).1 in
        omega (
          arith,
          c,
          in_hand e,
          ap (count a) (no_hand (s.rx_packet + n)),
          count-enqueue a s.rx_to_parser ms,
          count-append a s.freed_rx (drop n ms),
        )
    receive-Accounted s finished got e c = c

    parse-Accounted :
        (s : System api) (t : Thread)
        → s.parser ≡ t
        → Accounted a s
        → Accounted a (parse_at api t s)
    unfolding parse_at
    parse-Accounted s polling e c =
        let d = dequeue_burst s.rx_to_parser burst_size in
        let split = count-dequeue a burst_size s.rx_to_parser in
        elim (Bool-cases (length d.1 == 0)) [
          | inl z ↦ rw z (
              omega (
                arith,
                c,
                in_hand e,
                ap (count a) (no_hand s.pars_packet),
                split,
                count_of_length a d.1 ((==_iff (length d.1) 0).0 z),
              ))
          | inr z ↦ rw z (omega (arith, c, in_hand e, split))
        ]
    parse-Accounted s (holding ms) e c =
        let n = (enqueue_burst s.parse_to_tx ms).1 in
        omega (
          arith,
          c,
          in_hand e,
          ap (count a) (no_hand s.pars_packet),
          count-enqueue a s.parse_to_tx ms,
          count-append a s.leaked (drop n ms),
        )
    parse-Accounted s finished e c = c

    transmit-Accounted :
        (s : System api) (t : Thread) (n : ℕ)
        → s.transmitter ≡ t
        → Accounted a s
        → Accounted a (transmit_at api t n s)
    unfolding transmit_at
    transmit-Accounted s polling n e c =
        let d = dequeue_burst s.parse_to_tx burst_size in
        let split = count-dequeue a burst_size s.parse_to_tx in
        elim (Bool-cases (length d.1 == 0)) [
          | inl z ↦ rw z (
              omega
                (arith, c, in_hand e, split, count_of_length a d.1 ((==_iff (length d.1) 0).0 z)))
          | inr z ↦ rw z (omega (arith, c, in_hand e, split))
        ]
    transmit-Accounted s (holding ms) n e c = omega (
      arith,
      c,
      in_hand e,
      ap (count a) (no_hand (s.tx_packet + n)),
      count-append a s.sent (take n ms),
      count-append a s.freed_tx (drop n ms),
      count-take-drop a n ms,
    )
    transmit-Accounted s finished n e c = c

    Step-Accounted : {s t : System api} → Step api s t → Accounted a s → Accounted a t
    Step-Accounted {s} (receives got h) c = receive-Accounted s s.receiver got refl c
    Step-Accounted {s} parses c = parse-Accounted s s.parser refl c
    Step-Accounted {s} (transmits n h) c = transmit-Accounted s s.transmitter n refl c

    Reaches-Accounted : {s t : System api} → Reaches api s t → Accounted a s → Accounted a t
    Reaches-Accounted stays c = c
    Reaches-Accounted (steps r x) c = Step-Accounted x (Reaches-Accounted r c)

  -- From empty rings, on every interleaving of the threads: a buffer that the port delivered so many
  -- times is, as many times, held by a thread or a ring, sent, freed by the receiver or the
  -- transmitter, or dropped by the parser without a free.
  pub launched-places :
      (a : ℕ) (rx tx : Ring) (t : System api)
      → contents rx ≡ []
      → contents tx ≡ []
      → Reaches api (launched api rx tx) t
      → count a t.received ≡ places a t
  launched-places a rx tx t e1 e2 r =
      Reaches-Accounted a r (omega (arith, ap (count a) e1, ap (count a) e2))

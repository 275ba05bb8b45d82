-- ===== src/Pipeline/Order.antt =====
-- The order of the packets in the pipeline, on every interleaving of the threads.
use mathlib.Core.List.{Sublist, append-nil, append_assoc, sublist-append_left}
use mathlib.Core.List.Sublist
use mathlib.Core.Path.{subst}
use dpdk_folder.Prelude.{
  ℕ, ◌==◌, List, [], ◌++◌, length, take, drop, ◌≡◌, refl, sym, ap, ==_iff, Bool-cases, inl, inr,
  take-append-drop, ◌∙◌, eq_nil_of_length,
}
use dpdk_folder.Dpdk.{Mbuf}
use dpdk_folder.Dpdk.RingApi.{RingApi}
use dpdk_folder.Pipeline.Steps.{
  no_hand, Thread, polling, holding, finished, hand, after_round, burst_size, System, receive_at,
  parse_at, transmit_at, Step, receives, parses, transmits, Reaches, stays, steps, launched,
}

module _ (api : RingApi) where
  open api use {Ring, contents, enqueue_burst, dequeue_burst}

  -- Whatever is on its way, and what was sent, in the order of the pipeline: the packets sent first.
  abbrev pub in_flight : System api → List Mbuf
  in_flight s =
      ((((s.sent ++ hand s.transmitter) ++ contents s.parse_to_tx) ++ hand s.parser)
        ++ contents s.rx_to_parser)
      ++ hand s.receiver

  abbrev Ordered : System api → Type 0
  Ordered s = Sublist (in_flight s) s.received

take-sublist : (n : ℕ) (ms : List Mbuf) → Sublist (take n ms) ms
take-sublist n ms =
    subst (λ (l : List Mbuf). Sublist (take n ms) l) (take-append-drop n ms)
      (sublist-append_left (take n ms) (drop n ms))

behind : (rest : List Mbuf) {xs ys : List Mbuf} → Sublist xs ys → Sublist (xs ++ rest) (ys ++ rest)
behind rest s = Sublist.append s (Sublist.refl rest)

-- A burst leaves a hand for the port: it keeps its order, and what is not taken is missing.
leaves :
    (t : Thread) (n k : ℕ) (front ms : List Mbuf)
    → hand t ≡ ms
    → Sublist ((front ++ take n ms) ++ hand (after_round k)) (front ++ hand t)
leaves t n k front ms e =
    rw (e, no_hand k, append-nil (front ++ take n ms))
      (Sublist.append (Sublist.refl front) (take-sublist n ms))

-- A burst arrives in an empty hand.
arrives :
    (t : Thread) (front seen got : List Mbuf)
    → hand t ≡ []
    → Sublist (front ++ hand t) seen
    → Sublist (front ++ got) (seen ++ got)
arrives t front seen got e o =
    behind got
      (subst (λ (l : List Mbuf). Sublist l seen) (ap (λ h. front ++ h) e ∙ append-nil front) o)

module _ (api : RingApi) where
  open api use {Ring, contents, enqueue_burst, dequeue_burst}

  -- It leaves a hand for a ring.
  enters :
      (t : Thread) (k : ℕ) (front ms : List Mbuf) (r : Ring)
      → hand t ≡ ms
      → Sublist
          ((front ++ contents (enqueue_burst r ms).0) ++ hand (after_round k))
          ((front ++ contents r) ++ hand t)
  enters t k front ms r e =
      rw
        (
          api.contents-enqueue r ms,
          sym (append_assoc front (contents r) (take (enqueue_burst r ms).1 ms)),
        )
        (leaves t (enqueue_burst r ms).1 k (front ++ contents r) ms e)

  -- It leaves a ring for an empty hand.
  moves :
      (t t' : Thread) (n : ℕ) (front : List Mbuf) (r : Ring)
      → hand t ≡ []
      → hand t' ≡ (dequeue_burst r n).1
      → Sublist
          ((front ++ hand t') ++ contents (dequeue_burst r n).0)
          ((front ++ hand t) ++ contents r)
  moves t t' n front r e e' =
      rw
        (
          e,
          e',
          api.contents-dequeue r n,
          append-nil front,
          append_assoc front (dequeue_burst r n).1 (contents (dequeue_burst r n).0),
        )
        (Sublist.refl (front ++ ((dequeue_burst r n).1 ++ contents (dequeue_burst r n).0)))

  receive-Ordered :
      (s : System api) (t : Thread) (got : List Mbuf)
      → s.receiver ≡ t
      → Ordered api s
      → Ordered api (receive_at api t got s)
  unfolding receive_at
  receive-Ordered s polling got e o = elim (Bool-cases (length got == 0)) [
    | inl z ↦ rw (z, no_hand s.rx_packet, sym (ap hand e)) o
    | inr z ↦ rw z (arrives s.receiver _ s.received got (ap hand e) o)
  ]
  receive-Ordered s (holding ms) got e o =
      Sublist.trans (enters s.receiver _ _ ms s.rx_to_parser (ap hand e)) o
  receive-Ordered s finished got e o = o

  parse-Ordered :
      (s : System api) (t : Thread) → s.parser ≡ t → Ordered api s → Ordered api (parse_at api t s)
  unfolding parse_at
  parse-Ordered s polling e o =
      let d = dequeue_burst s.rx_to_parser burst_size in
      elim (Bool-cases (length d.1 == 0)) [
        | inl z ↦ rw z (
            Sublist.trans
              (behind _ (
                moves s.parser (after_round s.pars_packet) burst_size _ s.rx_to_parser (ap hand e) (
                  no_hand s.pars_packet
                  ∙ sym (eq_nil_of_length d.1 ((==_iff (length d.1) 0).0 z)))))
              o)
        | inr z ↦ rw z (
            Sublist.trans
              (behind _ (moves s.parser (holding d.1) burst_size _ s.rx_to_parser (ap hand e) refl))
              o)
      ]
  parse-Ordered s (holding ms) e o =
      Sublist.trans (behind _ (behind _ (enters s.parser _ _ ms s.parse_to_tx (ap hand e)))) o
  parse-Ordered s finished e o = o

  transmit-Ordered :
      (s : System api) (t : Thread) (n : ℕ)
      → s.transmitter ≡ t
      → Ordered api s
      → Ordered api (transmit_at api t n s)
  unfolding transmit_at
  transmit-Ordered s polling n e o =
      let d = dequeue_burst s.parse_to_tx burst_size in
      elim (Bool-cases (length d.1 == 0)) [
        | inl z ↦ rw z (
            Sublist.trans
              (behind _ (
                behind _ (
                  behind _ (
                    moves s.transmitter polling burst_size _ s.parse_to_tx (ap hand e)
                      (sym (eq_nil_of_length d.1 ((==_iff (length d.1) 0).0 z)))))))
              o)
        | inr z ↦ rw z (
            Sublist.trans
              (behind _ (
                behind _ (
                  behind _ (
                    moves s.transmitter (holding d.1) burst_size _ s.parse_to_tx (ap hand e)
                      refl))))
              o)
      ]
  transmit-Ordered s (holding ms) n e o =
      Sublist.trans
        (behind _ (behind _ (behind _ (behind _ (leaves s.transmitter n _ _ ms (ap hand e)))))) o
  transmit-Ordered s finished n e o = o

  Step-Ordered : {s t : System api} → Step api s t → Ordered api s → Ordered api t
  Step-Ordered {s} (receives got h) o = receive-Ordered s s.receiver got refl o
  Step-Ordered {s} parses o = parse-Ordered s s.parser refl o
  Step-Ordered {s} (transmits n h) o = transmit-Ordered s s.transmitter n refl o

  Reaches-Ordered : {s t : System api} → Reaches api s t → Ordered api s → Ordered api t
  Reaches-Ordered stays o = o
  Reaches-Ordered (steps r x) o = Step-Ordered x (Reaches-Ordered r o)

  -- From empty rings, on every interleaving of the threads: what was sent, followed by what the
  -- transmitter, the second ring, the parser, the first ring and the receiver hold, is what the port
  -- delivered in the order of delivery, less some packets. So no
  -- packet overtakes another, and none is sent more often than it was delivered.
  pub launched-in_order :
      (rx tx : Ring) (t : System api)
      → contents rx ≡ []
      → contents tx ≡ []
      → Reaches api (launched api rx tx) t
      → Sublist (in_flight api t) t.received
  launched-in_order rx tx t e1 e2 r = Reaches-Ordered r (rw (e1, e2) (Sublist.refl []))

-- ===== src/Pipeline/Stuck.antt =====
-- When the threads of packet_parseer_ring wait for ever: the transmitter looks at its counter only in
-- a round that got packets, and nobody may be left to send it any.
use mathlib.Core.Path.{subst}
use dpdk_folder.Prelude.{ℕ, length, arith, ◌≡◌, refl, ap, sym, length-append, ==_iff}
use dpdk_folder.Dpdk.RingApi.{RingApi}
use dpdk_folder.Pipeline.Steps.{
  polling, finished, burst_size, System, receive_at, parse_at, transmit_at, Step, receives, parses,
  transmits, Reaches, stays, steps,
}

module _ (api : RingApi) where
  open api use {Ring, contents, dequeue_burst}

  pub record IsStarved (s : System api) : Type 0 where
    pub receiver_finished : s.receiver ≡ finished
    pub parser_finished : s.parser ≡ finished
    pub transmitter_polling : s.transmitter ≡ polling
    pub nothing_left : length (contents s.parse_to_tx) ≡ 0

  dequeue_empty :
      (r : Ring) (n : ℕ)
      → length (contents r) ≡ 0
      → (length (dequeue_burst r n).1 ≡ 0) × (length (contents (dequeue_burst r n).0) ≡ 0)
  dequeue_empty r n h =
      let e = ap length (api.contents-dequeue r n) in
      let l = length-append (dequeue_burst r n).1 (contents (dequeue_burst r n).0) in
      (omega (arith, h, e, l), omega (arith, h, e, l))

  transmit-IsStarved :
      (s : System api) (n : ℕ) → IsStarved s → IsStarved (transmit_at api polling n s)
  unfolding transmit_at
  transmit-IsStarved s n i =
      let e = dequeue_empty s.parse_to_tx burst_size i.nothing_left in
      record {
        receiver_finished = i.receiver_finished;
        parser_finished = i.parser_finished;
        transmitter_polling =
            rw ((==_iff (length (dequeue_burst s.parse_to_tx burst_size).1) 0).1 e.0) refl;
        nothing_left = e.1;
      }

  Step-IsStarved : {s t : System api} → Step api s t → IsStarved s → IsStarved t
  unfolding receive_at parse_at
  Step-IsStarved {s} (receives got h) i =
      subst (λ t. IsStarved (receive_at api t got s)) (sym i.receiver_finished) i
  Step-IsStarved {s} parses i = subst (λ t. IsStarved (parse_at api t s)) (sym i.parser_finished) i
  Step-IsStarved {s} (transmits n h) i =
      subst (λ t. IsStarved (transmit_at api t n s)) (sym i.transmitter_polling)
        (transmit-IsStarved s n i)

  -- If the receiver and the parser have ended and the transmitter polls an empty ring, then whatever
  -- the threads do after that, the transmitter polls an empty ring: it never ends.
  pub IsStarved-for_ever : {s t : System api} → IsStarved s → Reaches api s t → IsStarved t
  IsStarved-for_ever i stays = i
  IsStarved-for_ever i (steps r x) = Step-IsStarved x (IsStarved-for_ever i r)

-- ===== src/Pipeline/Counters.antt =====
-- What the three threads count, on every interleaving of their steps.
mod Invariant
mod Threads
pub use Invariant.{Counted}
use dpdk_folder.Prelude.{
  ℕ, ◌+◌, ◌≤◌, leb, ◌==◌, List, [], length, take, drop, arith, length-append, length-take,
  length-drop, ◌≡◌, refl, ap, Bool-cases, inl, inr, ==_iff,
}
use dpdk_folder.Dpdk.{Mbuf}
use dpdk_folder.Dpdk.RingApi.{RingApi}
use dpdk_folder.Pipeline.Steps.{
  Thread, polling, holding, finished, hand, after_round, burst_size, System, receive_at, parse_at,
  transmit_at, Step, receives, parses, transmits, Reaches, stays, steps, launched,
}
use Threads.{receive-Counted, parse-Counted, transmit-Counted}

module _ (api : RingApi) where
  open api use {Ring, contents, enqueue_burst, dequeue_burst}

  Step-Counted : {s t : System api} → Step api s t → Counted api s → Counted api t
  Step-Counted {s} (receives got h) c = receive-Counted api s s.receiver got h refl c.rx_range c
  Step-Counted {s} parses c = parse-Counted api s s.parser refl c.pars_range c
  Step-Counted {s} (transmits n h) c = transmit-Counted api s s.transmitter n h refl c.tx_range c

  Reaches-Counted : {s t : System api} → Reaches api s t → Counted api s → Counted api t
  Reaches-Counted stays c = c
  Reaches-Counted (steps r x) c = Step-Counted x (Reaches-Counted r c)

  -- From empty rings, on every interleaving of the threads and whatever the port delivers and takes:
  -- each counter is at most 24 inside its loop and between 25 and 56 behind it; the receiver has
  -- counted what the parser has counted and the ring between them holds; the parser has counted what it
  -- holds, what it dropped, what the second ring and the transmitter hold, and what was sent or freed
  -- there; and the transmitter has counted what was sent.
  pub launched-Counted :
      (rx tx : Ring) (t : System api)
      → contents rx ≡ []
      → contents tx ≡ []
      → Reaches api (launched api rx tx) t
      → Counted api t
  launched-Counted rx tx t e1 e2 r = Reaches-Counted r (record {
    rx_range = omega arith;
    pars_range = omega arith;
    tx_range = omega arith;
    taken = omega (arith, ap length e1);
    passed = omega (arith, ap length e2);
    tx_sent = refl;
  })

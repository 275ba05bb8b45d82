-- ===== src/Pipeline/Tests.antt =====
-- A run of the pipeline over rings of 1024 slots: the port delivers 32 packets in one burst, and takes
-- none of them.
use mathlib.Core.List.{Sublist}
use dpdk_folder.Prelude.{ℕ, zero, suc, List, [], ◌∷◌, ◌≡◌, refl, arith, pos, if◌then◌else◌, ◌==◌}
use dpdk_folder.Dpdk.{Mbuf, Driver, value_of, done, machine}
use dpdk_folder.Ports.Queues.{for_queues}
use dpdk_folder.Pipeline.Launch
use dpdk_folder.Pipeline.Launch.{BringsUpFour, pipeline_main-BringsUpFour}
use dpdk_folder.Dpdk.Ownership.{count}
use dpdk_folder.Dpdk.RingApi.{RingApi, list_ring}
use dpdk_folder.Pipeline.Steps.{
  System, Reaches, stays, steps, receives, parses, transmits, launched, receive_at, parse_at,
  transmit_at,
}
use dpdk_folder.Pipeline.Counters.{Counted, launched-Counted}
use dpdk_folder.Pipeline.Order.{in_flight, launched-in_order}
use dpdk_folder.Pipeline.Owners.{places, launched-places}
use dpdk_folder.Pipeline.Stuck.{IsStarved, IsStarved-for_ever}

abbrev ring : RingApi
ring = list_ring 1024

abbrev packets : ℕ → List Mbuf
packets zero = []
packets (suc n) = record { addr = suc n; bytes = [] } ∷ packets n

-- receive, enqueue, dequeue, enqueue, dequeue, send none
abbrev first : System ring
first = launched ring [] []

abbrev arrived : System ring
arrived = receive_at ring first.receiver (packets 32) first

abbrev queued : System ring
queued = receive_at ring arrived.receiver [] arrived

abbrev taken : System ring
taken = parse_at ring queued.parser queued

abbrev parsed : System ring
parsed = parse_at ring taken.parser taken

abbrev handed : System ring
handed = transmit_at ring parsed.transmitter 0 parsed

abbrev refused : System ring
refused = transmit_at ring handed.transmitter 0 handed

until_refused : Reaches ring first refused
until_refused =
    steps
      (steps
        (steps
          (steps
            (steps (steps stays (receives (packets 32) (omega arith))) (receives [] (omega arith)))
            parses)
          parses)
        (transmits 0 (omega arith)))
      (transmits 0 (omega arith))

refused_lem : IsStarved ring refused
unfolding receive_at parse_at transmit_at
refused_lem = record {
  receiver_finished = refl;
  parser_finished = refl;
  transmitter_polling = refl;
  nothing_left = refl;
}

IsStarved-for_ever_example : IsStarved ring (transmit_at ring refused.transmitter 0 refused)
IsStarved-for_ever_example =
    IsStarved-for_ever ring refused_lem (steps stays (transmits 0 (omega arith)))

launched-Counted_example : Counted ring refused
launched-Counted_example = launched-Counted ring [] [] refused refl refl until_refused

launched-in_order_example : Sublist (in_flight ring refused) refused.received
launched-in_order_example = launched-in_order ring [] [] refused refl refl until_refused

launched-places_example : count 7 refused.received ≡ places ring 7 refused
launched-places_example = launched-places ring 7 [] [] refused refl refl until_refused

-- A driver that fails to make the second ring, by its 16th call: main launches the threads nevertheless.
abbrev ringless : Driver
ringless = record { int = λ n r. pos 0; word = λ n r. if n == 15 then 0 else 8; burst = λ n r. [] }

main_launches : value_of (Launch.main ringless []) ≡ done (pos 0)
unfolding Launch.main for_queues machine
main_launches = refl

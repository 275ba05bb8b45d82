-- ===== src/Metering/Tests.antt =====
-- meter_dpdk/main.c, run on drivers.
use dpdk_folder.Prelude.{pos, [], ◌∷◌, ◌≡◌, refl}
use dpdk_folder.Dpdk.{Driver, Mbuf, running, exited, value_of, trace_of, machine, flow_create}
use dpdk_folder.Dpdk.Bursts.{free_all}
use dpdk_folder.Dpdk.Loops.{forever}
use dpdk_folder.Dpdk.Ownership.{released}
use dpdk_folder.Metering.Program.{main, start_port, create_meter, attach_meter, rx_round}

abbrev packet : Mbuf
packet = record { addr = 77; bytes = 1 ∷ 2 ∷ [] }

-- Everything succeeds, and each burst has one packet.
abbrev willing : Driver
willing = record { int = λ n r. pos 0; word = λ n r. 5; burst = λ n r. packet ∷ [] }

abbrev no_flows : Driver
no_flows = record willing { word = λ n r. elim r [ flow_create _ _ _ ↦ 0 | _ ↦ 5 ] }

two_rounds : value_of (main 2 willing []) ≡ running
unfolding main start_port create_meter attach_meter rx_round free_all forever machine
two_rounds = refl

twice_freed : released 77 (trace_of (main 2 willing [])) ≡ 2
unfolding main start_port create_meter attach_meter rx_round free_all forever machine
twice_freed = refl

without_flows : value_of (main 2 no_flows []) ≡ exited
unfolding main start_port create_meter attach_meter rx_round free_all forever machine
without_flows = refl

-- ===== src/EventSetup/Tests.antt =====
-- The event programs, run on drivers.
use dpdk_folder.Prelude.{ltb, if◌then◌else◌, ◌+◌, ℕ, pos, [], ◌∷◌, ◌≡◌, refl, arith, false, is_neg}
use dpdk_folder.Dpdk.{
  Driver, Request, done, value_of, trace_of, machine, first_worker, next_worker, event_port_link,
}
use dpdk_folder.Dpdk.Loops.{forever, Conserves}
use dpdk_folder.Dpdk.Ownership.{received, released}
use dpdk_folder.Dpdk.Rules.{Ends, Reaches, Serves}
use dpdk_folder.Ports.EventPort.{port_init}
use dpdk_folder.Events.Handlers.{accepted, refused, delivered}
use dpdk_folder.EventSetup.Device.{eventdev}
use dpdk_folder.EventSetup.Sends.{send, await_event, setup_ports, link_ports, Closes, u64_event}
use dpdk_folder.EventSetup.Beginner
use dpdk_folder.EventSetup.PacketMain
use dpdk_folder.EventSetup.PacketMain.{Ordered, wait_workers}
use dpdk_folder.EventSetup.Workers
use dpdk_folder.EventSetup.Workers.{set_up, launch_workers, send_events, send_exits, print_stats}
use dpdk_folder.EventSetup.Workers.Production.{
  production, IsComplete, AsDocumented, eventdev-main-Produces,
}
use dpdk_folder.EventSetup.Ipc
use dpdk_folder.EventSetup.Ipc.{request_round, reply_round}
use dpdk_folder.EventSetup.Ipc.Order.{BothReady, ipc_eventdev-Conserves}
use dpdk_folder.EventSetup.Ipc2
use dpdk_folder.EventSetup.Ipc2.{Replied, setup_eventdev, exchange}
use dpdk_folder.EventSetup.Programs.{event_programs-Follow}

-- Every call succeeds; the workers are lcores 1 and 2; an event is there whenever it is asked for.
abbrev willing : Driver
willing = record {
  int = λ n r. elim r [
    | event_port_link _ (q ∷ q₂ ∷ qs) ↦ pos 2
    | event_port_link _ _ ↦ pos 1
    | _ ↦ pos 0
  ];
  word =
      λ n r. elim r [ first_worker ↦ 1 | next_worker i ↦ if ltb i 2 then i + 1 else 128 | _ ↦ 1 ];
  burst = λ n r. u64_event 12345 ∷ [];
}

willing-AsDocumented : AsDocumented willing
willing-AsDocumented = record { enqueues = λ n value. omega arith; launches = λ n lcore. refl }

beginner_runs : value_of (Beginner.main 1 willing []) ≡ done (pos 0)
unfolding Beginner.main send await_event machine
beginner_runs = refl

packet_main_runs : value_of (PacketMain.main 3 willing []) ≡ done (pos 0)
unfolding PacketMain.main port_init wait_workers machine
packet_main_runs = refl

workers_run : value_of (Workers.main 3 willing []) ≡ done (pos 0)
unfolding Workers.main set_up setup_ports link_ports launch_workers send_events send_exits send
    print_stats machine
workers_run = refl

replies : value_of (Ipc2.secondary 1 willing []) ≡ done (pos 0)
unfolding Ipc2.secondary await_event machine
replies = refl

event_programs-Follow_example :
    Ends eventdev Closes (Beginner.main 1 willing [])
    × Ends eventdev Ordered (PacketMain.main 1 willing [])
    × Ends eventdev (Reaches Replied) (Ipc2.primary 1 willing [])
event_programs-Follow_example = event_programs-Follow willing 1 ((λ n p q. refl), (λ n p. refl))

eventdev-main-Produces_example :
    Ends eventdev Closes (Workers.main 3 willing [])
    × Ends production (Reaches IsComplete) (Workers.main 3 willing [])
eventdev-main-Produces_example = eventdev-main-Produces willing 3 willing-AsDocumented

willing_obliges : (n : ℕ) (r : Request) → is_neg (willing.int n r) ≡ false
willing_obliges n r = ground arith

ipc_eventdev-Conserves_example :
    Ends eventdev (Serves BothReady) (Ipc.primary 2 willing [])
    × Conserves
        (received 1)
        (λ h. accepted 1 h + refused 1 h)
        []
        (trace_of (forever 2 (request_round 7) willing []))
    × Conserves (delivered 1) (released 1) [] (trace_of (forever 2 (request_round 7) willing []))
    × Conserves
        (λ h. accepted 1 h + refused 1 h)
        (delivered 1)
        []
        (trace_of (forever 2 reply_round willing []))
ipc_eventdev-Conserves_example =
    ipc_eventdev-Conserves willing 2 7 1 [] (willing_obliges, λ n p. refl) (omega arith)

-- ===== src/Ports/Tests.antt =====
-- Runs of the port initialisers against a driver that does what it is asked, and against one on which
-- starting a port fails.
use dpdk_folder.Prelude.{
  ◌==◌, true, ℕ, ◌+◌, ◌≤◌, ◌≡◌, refl, pos, negsuc, ltb, if◌then◌else◌, [], arith,
}
use dpdk_folder.Dpdk.{Driver, is_valid_port, pool_create, find_next_port, dev_start, done, machine}
use dpdk_folder.Dpdk.Lifecycle.{ethdev, fresh_port}
use dpdk_folder.Dpdk.Rules.{At, Ends}
use dpdk_folder.Prefetch.Program
use dpdk_folder.Ports.AllInits.{port_inits-BringUpOrNot}
use dpdk_folder.Ports.Contract.{BringsUpOrNot}
use dpdk_folder.Ports.Queues.{for_queues}
use dpdk_folder.Ports.PortInit
use dpdk_folder.Ports.PortInit.AllPorts.{main-IsUp, MainUp}
use dpdk_folder.Ports.PortInit2
use dpdk_folder.Ports.Notes
use dpdk_folder.Ports.Notes.Up.{ReturnsUp, port_loops-BringUp}
use dpdk_folder.Ports.Each.{init_or_exit}
use dpdk_folder.Ports.Each.Listed.{IsNext, AllUpOrExits}
use dpdk_folder.Ports.Initialize.{initialize_port}
use dpdk_folder.Ports.EventPort

-- One port, number 0; the pool is at 7.
abbrev willing : Driver
willing = record {
  int = λ n r. elim r [ is_valid_port _ ↦ pos 1 | _ ↦ pos 0 ];
  word = λ n r. elim r [
    | pool_create _ _ _ ↦ 7
    | find_next_port i ↦ if ltb i 1 then i else i + 32
    | _ ↦ 1
  ];
  burst = λ n r. [];
}

abbrev broken : Driver
broken = record {
  int = λ n r. elim r [ is_valid_port _ ↦ pos 1 | dev_start _ ↦ negsuc 4 | _ ↦ pos 0 ];
  word = λ n r. 7;
  burst = λ n r. [];
}

untouched : (p : ℕ) → At (ethdev p) fresh_port []
untouched p = record { state = refl; ordered = tt }

port_init_succeeds : (PortInit.port_init 0 7 willing []).0 ≡ done (pos 0)
unfolding PortInit.port_init machine for_queues
port_init_succeeds = refl

initialize_port_fails : (initialize_port 3 7 broken []).0 ≡ done (negsuc 4)
unfolding initialize_port machine for_queues
initialize_port_fails = refl

main_succeeds : (PortInit.main 33 willing []).0 ≡ done (pos 0)
unfolding PortInit.main PortInit.init_ports PortInit.port_init machine for_queues
main_succeeds = refl

main-IsUp_example : Ends (ethdev 0) MainUp (PortInit.main 33 willing [])
main-IsUp_example = main-IsUp willing (λ n i. forward n i) 0
  where
    forward : (n i : ℕ) → i ≤ (if ltb i 1 then i else i + 32)
    forward n i = ground arith

port_inits-BringUpOrNot_example :
    Ends (ethdev 2) BringsUpOrNot (PortInit2.port_init 2 7 broken [])
    × Ends (ethdev 2) BringsUpOrNot (initialize_port 2 7 broken [])
    × Ends (ethdev 2) BringsUpOrNot (Program.port_init 2 7 broken [])
    × Ends (ethdev 0) BringsUpOrNot (EventPort.port_init broken [])
port_inits-BringUpOrNot_example =
    port_inits-BringUpOrNot broken [] 2 7 (omega arith) (untouched 2) (untouched 0)

-- The driver lists port 0 only.
willing-IsNext : (i : ℕ) → IsNext (λ p. p == 0) i (if ltb i 1 then i else i + 32)
willing-IsNext i = record {
  forward = ground arith;
  found = λ lt. ground arith;
  skips = λ p le lt small. ground arith;
}

port_loops-BringUp_example :
    Ends (ethdev 0) (ReturnsUp true) (Notes.main 33 willing [])
    × Ends (ethdev 0) (AllUpOrExits true) (init_or_exit PortInit2.port_init 33 7 0 willing [])
port_loops-BringUp_example =
    port_loops-BringUp willing (λ p. p == 0) 0 7 0 (λ n i le. willing-IsNext i) (omega arith)
      (willing-IsNext 0) (omega arith)

-- ===== src/Ports/AllInits.antt =====
-- The other initialisations of a port, side by side: port_init2/port.c, packet_parsing/port_init.c,
-- eventdev_packet_parsing/port.c and prefetch/main.c.
use dpdk_folder.Prelude.{ℕ, ◌≢◌}
use dpdk_folder.Dpdk.{Driver, Trace}
use dpdk_folder.Dpdk.Lifecycle.{ethdev, fresh_port}
use dpdk_folder.Dpdk.Rules.{At, Ends}
use dpdk_folder.Ports.Contract.{BringsUpOrNot}
use dpdk_folder.Ports.PortInit2
use dpdk_folder.Ports.PortInit2.Order.{port_init2-BringsUpOrNot}
use dpdk_folder.Ports.Initialize.{initialize_port}
use dpdk_folder.Ports.Initialize.Order.{initialize_port-BringsUpOrNot}
use dpdk_folder.Ports.EventPort
use dpdk_folder.Ports.EventPort.Order.{event_port_init-BringsUpOrNot}
use dpdk_folder.Prefetch.Program
use dpdk_folder.Prefetch.Program.{prefetch_port_init-BringsUpOrNot}

-- Called on a port that is untouched and, where they take one, with a pool that exists, `port_init` of
-- port_init2, `initialize_port` of packet_parsing, `port_init` of prefetch and, for port 0, `port_init`
-- of eventdev_packet_parsing return for every driver, make their calls in the order that ethdev asks for,
-- and return 0 when the port is ready and something else when it does not run.
pub port_inits-BringUpOrNot :
    (d : Driver) (h : Trace) (port pool : ℕ)
    → pool ≢ 0
    → At (ethdev port) fresh_port h
    → At (ethdev 0) fresh_port h
    → Ends (ethdev port) BringsUpOrNot (PortInit2.port_init port pool d h)
      × Ends (ethdev port) BringsUpOrNot (initialize_port port pool d h)
      × Ends (ethdev port) BringsUpOrNot (Program.port_init port pool d h)
      × Ends (ethdev 0) BringsUpOrNot (EventPort.port_init d h)
port_inits-BringUpOrNot d h port pool ne at at0 = (
  port_init2-BringsUpOrNot d h port pool ne at,
  initialize_port-BringsUpOrNot d h port pool ne at,
  prefetch_port_init-BringsUpOrNot d h port pool ne at,
  event_port_init-BringsUpOrNot d h at0,
)

-- ===== src/EventSetup/Programs.antt =====
-- The programs that check each call of their set-up.
use dpdk_folder.Prelude.{ℕ, []}
use dpdk_folder.Dpdk.{Driver}
use dpdk_folder.Dpdk.Rules
use dpdk_folder.Dpdk.Rules.{Ends, Reaches}
use dpdk_folder.EventSetup.Device.{eventdev, Links}
use dpdk_folder.EventSetup.Sends.{Closes}
use dpdk_folder.EventSetup.Beginner
use dpdk_folder.EventSetup.PacketMain
use dpdk_folder.EventSetup.PacketMain.{Ordered}
use dpdk_folder.EventSetup.Ipc2
use dpdk_folder.EventSetup.Ipc2.{Replied}

-- For every driver that makes each link that it is asked for, the mains of beginner_eventdev/main.c,
-- eventdev_packet_parsing/main.c and ipc_eventdev2/primary.c use the event device in the documented order,
-- whichever other call fails: none starts the device before each queue is linked to a port. Where the first
-- returns, it returns 0 with the device closed; where the second returns, it returns 0 with the device
-- closed, or 1 with the device not running; where the third returns, it returns 0, and its device runs with
-- the port and the queue that it has set up.
pub event_programs-Follow :
    (d : Driver) (rounds : ℕ)
    → Links d
    → Ends eventdev Closes (Beginner.main rounds d [])
      × Ends eventdev Ordered (PacketMain.main rounds d [])
      × Ends eventdev (Reaches Replied) (Ipc2.primary rounds d [])
event_programs-Follow d rounds links = (
  Rules.Triple-Ends (Beginner.main-Triple d rounds links),
  Rules.Triple-Ends (PacketMain.main-Triple d rounds links),
  Rules.Triple-Ends (Ipc2.primary-Triple d rounds),
)

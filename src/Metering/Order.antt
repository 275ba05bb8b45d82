-- ===== src/Metering/Order.antt =====
-- main of meter_dpdk/main.c meters what it receives, on a port that it has started.
use dpdk_folder.Prelude.{◌≡◌, true, ◌<◌, [], ◌∷◌}
use dpdk_folder.Dpdk.Protocol.{Protocol}
use dpdk_folder.Dpdk.Lifecycle.{PortState}
use dpdk_folder.Dpdk.Rules
use dpdk_folder.Dpdk.Rules.{At}
use dpdk_folder.Metering.Meters.{MeterState, ipv4_layers}

-- The port has been started, with a receive queue.
abbrev pub IsStarted : PortState → Type 0
IsStarted s = (s.started ≡ true) × (0 < s.nb_rx)

-- One flow sends packets through a meter: those of IPv4 in Ethernet.
abbrev pub IsMetered : MeterState → Type 0
IsMetered s = s.metered ≡ ipv4_layers ∷ []

-- Meter 1 is made, and no flow.
abbrev HasMeter : MeterState → Type 0
HasMeter s = (s.meters ≡ 1 ∷ []) × (s.metered ≡ [])

-- ===== src/EventSetup.antt =====
-- The programs that set an event device up: eventdev/main.c, eventdev_packet_parsing/main.c,
-- beginner_eventdev/main.c, ipc_eventdev and ipc_eventdev2.
pub mod Device
pub mod Sends
pub mod Beginner
pub mod Workers
pub mod Ipc
pub mod Ipc2
pub mod Programs
mod Tests
pub mod PacketMain

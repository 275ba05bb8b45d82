-- ===== src/Ports.antt =====
-- The functions that bring an Ethernet port up, one for each program that has its own, and what
-- each of them promises.
pub mod Contract
pub mod Queues
pub mod Each
pub mod PortInit
pub mod PortInit2
pub mod Initialize
pub mod EventPort
pub mod Notes
pub mod AllInits
mod Tests

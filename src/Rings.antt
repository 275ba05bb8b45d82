-- ===== src/Rings.antt =====
-- The programs in which two processes pass blocks over rings: full_duplex_2_rings (Duplex) and
-- ipc_ring_pri_sec (Ipc).
pub mod Duplex
pub mod Ipc
pub mod Single
pub mod SetUp
mod Tests

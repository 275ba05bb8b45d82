-- ===== src/Metering.antt =====
-- meter_dpdk/main.c: a port whose traffic passes a meter before it is received.
pub mod Meters
pub mod Program
pub mod Order
mod Tests

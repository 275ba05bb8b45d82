-- ===== src/Cores.antt =====
-- The small programs about cores and time: lcore/lcore.c and lcore_thread/lcore.c (Launch), timer_dpdk/main.c
-- (Timer) and fragmentation/main.c (Fragments).
pub mod Launch
pub mod Timer
pub mod Fragments
mod Tests

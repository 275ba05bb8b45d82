-- ===== src/Rcu.antt =====
-- rcu_dpdk/main.c: a writer replaces a block five times while a reader reads it, and frees each old block
-- when the reader can no longer hold it.
pub mod Steps
pub mod Safety
mod Tests

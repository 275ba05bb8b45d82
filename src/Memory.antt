-- ===== src/Memory.antt =====
-- mem_info2/main.c, mem_info/main.c and mem_pool: the layout of one buffer, and the programs that print it.
pub mod Buffers
pub mod Stores
pub mod MemInfo2
pub mod MemPool
pub mod MemInfo
mod Tests

-- ===== src/Reordering.antt =====
-- reorder_packet/main.c, reorder_packet2/main.c and reorder_2/main.c: packets inserted out of order into a
-- reorder buffer and drained from it.
pub mod Program
pub mod Buffers
mod Tests

-- ===== src/Pipeline.antt =====
-- packet_parseer_ring: three threads, `receive_packet`, `packet_parser` and `transmit_packet`, joined by
-- the rings RX_TO_PARSER and PARSE_TO_TX. Each thread is a state machine whose steps are its calls of
-- shared objects: a burst from the port, a ring operation, a burst to the port. Steps of different
-- threads interleave in any order.
mod Steps
pub mod Launch
pub mod Counters
pub mod Order
pub mod Owners
pub mod Stuck
mod Tests
pub use Steps.*

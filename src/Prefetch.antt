-- ===== src/Prefetch.antt =====
-- prefetch/main.c: a receive loop that prefetches packets ahead of processing them and measures its rate.
pub mod Schedule
pub mod Rate
pub mod Loop
pub mod Program
mod Tests

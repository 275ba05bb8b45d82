-- ===== src/Events.antt =====
-- eventdev/main.c: main sends numbered events and then one exit event for each worker, and the workers
-- take events from the event device until they get an exit event.
pub mod Workers
pub mod Exits
pub mod Handlers
mod Tests

-- ===== src/Messages.antt =====
-- The processes that exchange messages: Multiple_Sender_MP/sec.c, which sends three requests, each with up
-- to three attempts, the other secondaries, and the primaries that answer.
pub mod Decimal
pub mod Receiver
pub mod ReplyText
pub mod Replies
pub mod Asking
pub mod Sender
pub mod Retries
mod Tests

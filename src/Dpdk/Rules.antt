-- ===== src/Dpdk/Rules.antt =====
-- Rules to prove what a program does to one port: from a port state to a condition on how the
-- program ends and on the port state that it leaves.
mod State
mod Calls
mod Ignored
mod Guards
mod Compose
mod Forever
mod Waiting
mod Automation
pub use State.*
pub use Calls.*
pub use Ignored.*
pub use Guards.*
pub use Compose.*
pub use Forever.*
pub use Waiting.*
pub use Automation.{other_rules, call_rules}

-- ===== src/Dpdk.antt =====
-- What the programs share of DPDK, which is not part of the repository: the calls that they make,
-- a driver that answers them in any way it likes, the trace of calls and answers, and the monad in
-- which a program is written.
mod Calls
mod Program
pub mod Protocol
pub mod Lifecycle
pub mod Ownership
pub mod Rules
pub mod Bursts
pub mod Loops
pub mod RingApi
pub mod Malloc
pub mod Balance
pub use Calls.*
unfoldable pub use Program.*

-- ===== src/Parsing.antt =====
-- The programs that take packets apart. A frame is the list of its `data_len` bytes; a read outside it
-- is `none`, so that a result `some …` means that only the packet's own bytes were read.
pub mod Reader
pub mod Headers
pub mod Frames
pub mod PacketProcess
pub mod ProcessPacket
pub mod MbufInfo
pub mod Parse
pub mod PacketInfo
pub mod RxLoop
pub mod Mains
mod Tests

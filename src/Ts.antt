-- ===== src/Ts.antt =====
-- src/ts.c: how the sections of the PSI tables are put together from the packets of a transport
-- stream, and handed to the caller one at a time.
pub mod Packet
pub mod Header
pub mod Section
pub mod Full
pub mod Add
pub mod Get
pub mod Store
pub mod Valid
pub mod Keep
pub mod FirstHalf
pub mod Continue
pub mod Loop
pub mod Output
pub mod Deliver
pub mod Run
pub mod Assemble
pub mod Whole
pub mod Several
pub mod Begin
pub mod Service

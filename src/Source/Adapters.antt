-- ===== src/Source/Adapters.antt =====
-- source/src/adapters: the bookkeeping of adapters that the crate does not compile yet.
pub mod Advanced
pub mod ChannelMap
pub mod InputBuffer
pub mod Multiplex
pub mod Retention
pub mod Rollback
pub mod Duplicate

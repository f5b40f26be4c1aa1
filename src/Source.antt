-- ===== src/Source.antt =====
-- The crate `source`: the sources that are built on a transposer, and the adapters of sources.
pub mod Sets
pub mod Steps
pub mod Channels
pub mod NoInput
pub mod Trait
pub mod InterruptStream
pub mod Adapters

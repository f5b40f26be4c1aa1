-- ===== src/Transposer.antt =====
-- The crate `transposer`: the schedule of a transposer, the programs that its handlers run, and the
-- steps that drive them.
pub mod Time
pub mod Storage
pub mod Backend
pub mod Metadata
pub mod Program
pub mod Context
pub mod Inputs
pub mod InputState
pub mod Wrapped
pub mod Step
pub mod Interpolation

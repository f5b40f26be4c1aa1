-- ===== src/Util.antt =====
-- util/src: helpers that the other crates share.
pub mod Deque
pub mod Entry
pub mod StackWaker

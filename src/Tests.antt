-- ===== src/Tests.antt =====
-- The theorems and the definitions on the transposer `CollatzTransposer` that the tests of
-- source/src/sources/transposer/steps.rs use.
mod Collatz
mod Inputs
mod Metadata
mod Step
mod Steps
mod Saturate
mod Channels
mod Reach
mod Reference
mod Sessions
mod Entries
mod Duplicates
mod Wakers
mod Stream
mod Adapters
mod Inquiries

-- ===== src/Lib.antt =====
-- Cozal runs deterministic, event driven state machines. A user's transposer schedules events, expires
-- them, handles inputs and emits outputs; the engine keeps its history as steps, throws away the states
-- of most of them, and computes a state again when a poll asks for its time.
--
-- The parts, and the files that model them:
-- - transposer/src/step/time.rs, expire_handle.rs, step/expire_handle_factory.rs: Transposer/Time.
-- - transposer/src/schedule_storage.rs: Transposer/Storage has the traits OrdMapStorage and
--   HashMapStorage as interfaces with laws, Storage/Std fills them with the maps of the standard
--   library, Transposer/Backend gathers the three maps of a transposer's metadata.
-- - transposer/src/step/transposer_metadata.rs: Transposer/Metadata; a method on `&mut self` returns the
--   new metadata. Metadata/Sync is the invariant of the schedule and the two maps of handles,
--   Metadata/Expire what a caller sees of it.
-- - transposer/src/lib.rs, transposer/src/context.rs: Transposer/Program. The body of a user's async
--   handler is a tree of the calls that it makes of its context.
-- - transposer/src/step/sub_step_update_context.rs: Transposer/Context runs such a tree up to where its
--   future suspends; Context/Swallow is about `outputs_to_swallow`.
-- - transposer/src/step/step_inputs.rs: Transposer/Inputs, with proofs in Inputs/Order and
--   Inputs/Descends.
-- - transposer/src/step/wrapped_transposer.rs: Transposer/Wrapped has its futures, as the handler that
--   they are in, and their polls. Wrapped/Drive is a run of a future to its end, Wrapped/Polls and
--   Wrapped/Ends relate polls to such runs.
-- - transposer/src/step/mod.rs: Transposer/Step; Step/Replay and Step/Resume are about a step that is
--   desaturated and saturated again.
-- - transposer/src/step/interpolation.rs, step/interpolate_context.rs: Transposer/Interpolation, with
--   proofs in Interpolation/Polls. The body of a user's `interpolate` is a tree of calls and waits.
-- - transposer/src/single_input_state.rs: Transposer/InputState, with proofs in InputState/Sends.
-- - source/src/sources/transposer/steps.rs: Source/Steps has the steps and their saturation,
--   Source/Steps/Query the search for a step and `delete_before`. The children Search, Delete, Marks,
--   Saturate, Events, Stands, Kept, Choice, LookBack and Advance are proofs. Source/Sets is the
--   BTreeSet of sequence numbers.
-- - source/src/sources/transposer/channels: Source/Channels, with proofs in Channels/Counts,
--   Channels/Started and Channels/Release.
-- - source/src/sources/transposer/no_input_transposer.rs, source/src/source_poll.rs,
--   util/src/stack_waker.rs: Source/NoInput, with proofs in NoInput/Polls, Asked, Counted and Reach.
--   NoInput/Reference has the run of the transposer alone, against which Reference/Refined and
--   Reference/Sessions set the polls of the source.
-- - source/src/traits/source.rs: Source/Trait has the trait as a record, its promise of `next_event_at`,
--   and its impl for the source of a transposer without inputs; Trait/Schedule proves the promise.
-- - source/src/adapters/interrupt_stream.rs, source/src/traits/source_ext.rs: Source/InterruptStream over
--   any source, with proofs in InterruptStream/Waits.
-- - source/src/adapters/duplicate: Source/Adapters/ChannelMap is channel_map.rs, with proofs in its
--   children Sqrt, Bounds and Maximum; Adapters/Advanced is advanced.rs; Adapters/Rollback is
--   rollback_event.rs and the stored events of duplicate_inner.rs, with proofs in Rollback/Stored and
--   Insert; Adapters/Duplicate is original.rs and the polls of duplicate_inner.rs, with proofs in
--   Duplicate/Shares and Fresh.
-- - source/src/adapters/transpose: Adapters/InputBuffer is input_buffer.rs, Adapters/Retention is
--   retention_policy.rs.
-- - source/src/adapters/multiplex: Adapters/Multiplex, over any source, with proofs in Multiplex/Idle.
-- - util/src/vecdeque_helpers.rs: Util/Deque, with proofs in Deque/Pairs.
-- - util/src/extended_entry: Util/Entry, with Entry/BTree for btree_map.rs, Entry/Hash for hash_map.rs,
--   Entry/Slot for option.rs, Entry/Indexed for vecdeque.rs, and proofs in Entry/Trips and Vacant.
-- - util/src/stack_waker.rs: Util/StackWaker, with proofs in StackWaker/Wakes.
-- Prelude has the shared names; Prelude/Results is what a call can end in: a value, an error, a panic,
-- or no end within its fuel. Tests has concrete runs.
--
-- A source polls steps, steps poll the futures of a wrapped transposer, these run handlers, and the
-- handlers change the metadata. The source finds the step for a time among the steps, and notes in the
-- channels what each caller waits for.
--
-- Conventions. A `T::Time` is a natural number. Handles, indices and sequence numbers are natural
-- numbers without a bound: a build with overflow checks panics only after 2 ^ 64 increments, and where
-- a subtraction of the source would go below 0 the model panics; the number of channels that wait for a
-- step is decremented only where a channel does wait. In ChannelMap the 64 bits of a `usize` are
-- written out. The model is of a build with debug assertions; the fresh identifiers of steps are
-- arguments. A poll of a future has fuel for its handlers, the loops of the source for their rounds:
-- theorems say how much is enough, or that none is.
-- BTreeSet, VecDeque, BTreeMap and HashMap are lists; `binary_search_by_key` is modelled on the
-- ascending times that steps have. The receiver of a saturating step is empty between two polls.
--
-- Not modelled: the wakers of a source, but for the channels registered with them. The user's
-- `interpolate` is a parameter of the source, like the random number generator and the maps; the
-- clock and the waits are parameters of the stream. The crates leave `evaluate_to` and all
-- adapters but the interrupt stream out of their builds. Of these the parts above are modelled as
-- they are written; the transposing source itself, the concurrent and the offload adapter and
-- `evaluate_to` are not, and neither are the locks of the duplicates and the test programs.
pub mod Prelude
pub mod Transposer
pub mod Source
pub mod Util
pub mod Tests

-- ===== src/Lib.antt =====
-- The universal multi-segmented bi-buffer bus: a message bus in C that carries messages from
-- producers to consumers over several buffers, the segments or lanes.
--
-- A submission (umsbb_submit_to) asks the flow control whether the lane's backlog is too high, tries
-- an accelerator for messages above 1 MB, takes a place for a capsule in the arena, wraps the message
-- with its number and a checksum, claims a slot of the lane's bi-buffer, copies the capsule there and
-- commits it, and logs what it did. A drain (umsbb_drain_from) reads the lane's next capsule,
-- validates its checksum, copies the payload out, logs, and releases the slot.
--
-- The files, and the code that they are about (src/ and include/ of the repository):
--   Prelude           names of the libraries, Boolean tests, lists over native numbers, words
--   Capsule           src/capsule.c: capsule_wrap, capsule_validate; Integrity: what the checksum finds
--   BiBuffer          src/bi_buffer.c, every function; Table: the states in region C; Invariant: the
--                     order of the indices; Effects: what each call changes; Protocol: the way of one
--                     message; Lifetime: how many messages a buffer takes; Stranding: the release with
--                     more than one message pending
--   Segments          src/segment_ring.c; Turns: round robin; Arena: src/arena_allocator.c
--   Control           src/adaptive_batch.c, src/flow_control.c, src/event_scheduler.c,
--                     src/high_water_mark.c; Batching and Backpressure: their laws
--   FeedbackStream    src/feedback_stream.c; Log: the log as a list
--   Gpu               src/gpu_delegate.c, its guards
--   Bus               src/universal_multi_segmented_bi_buffer_bus.c, the core functions; Submit and
--                     Drain: the two paths in the stages that their early returns mark; Outcomes,
--                     DrainOutcomes and Verdict: what each way leaves; Lanes, Invariant,
--                     DrainInvariant and History: well-formedness through every call; Delivery: from a
--                     submission to the drain; Isolation: the other lanes
--   Standalone        src/umsbb_complete_core.c; Bytes: memcpy, the header's 64 bytes, checksum; Messages:
--                     writing and reading; Registry: handles, creation and destruction; Stored, Queue,
--                     Queues and Reading: the segments as queues of messages; Selection, Accounting,
--                     Wrapping, Handles, Registered and Delivery: the laws
--   WasmCore          src/umsbb_wasm_core.c; Memory: wasm_malloc; Words: checksum and header; Buffers,
--                     Writing, Reading and Queries: the calls; Blocks, Checksums, Stored, Layout,
--                     Pushing, Places and Popping: segments as queues in the heap; Creation, Invariant,
--                     Slots, Writes, Reads and Runs: all the buffers through any calls; Delivery; Faults
--                     and Unbacked: lost messages and missing memory
--   TwinLane          src/twin_lane.c; Sending and Receiving: the calls; Slots: where a message is written;
--                     Windows: the windows, and what is received
--   Parallel          include/parallel_throughput_engine.h, the rings; Engine:
--                     src/parallel_throughput_engine.c; Front: src/umsbb_parallel_impl.c; Masks: the
--                     index mask; Interleaving and Fifo: one producer and one consumer, one access at a
--                     time; Race: two workers on one ring; Answers: what a submission answers
--   Bindings          src/language_bindings.c: runtimes and data; AutoScaling and Direct: the calls;
--                     Limits: producers and consumers; Delivery: from a direct submission to a drain;
--                     Owners: who takes a block back
--   Systems           src/universal_multi_segmented_bi_buffer_bus.c, the calls of version 3; Reliable: a
--                     reliable send
--   Handshake         src/feedback_handshake.c; Adjusted, Calls and Lifetime: what calls leave, and how many
--                     messages a manager takes; Balance, Kept and Accounting: the pending messages;
--                     Deadlines: the timeouts; Duplicates: a second acknowledgement
--   FastLane          src/fast_lane.c; Routing: the selection of a lane; Slots: submissions and drains
--   FaultTolerance    src/fault_tolerance.c; Accounting: the counts of faults; Health: isolation
--   Tests             the theorems at concrete inputs
--
-- How the code is represented. A struct is a record; a function that changes its argument returns the
-- new one, beside its result; a null result is none. Null arguments, which the code checks for, do not
-- occur. size_t has 64 bits and uint32_t 32, with the wrap-around written out. Memory is a function from
-- addresses to bytes; a capsule holds the payload's address, as in C, so a payload that its owner changes
-- after the submission is a different memory at the drain. A capsule takes 48 bytes, as where pointers
-- have 8. Region A of a bi-buffer maps an offset to the capsule last copied there. Region B, which
-- nothing reads or writes, is left out. time(NULL) is read once for each call, as the argument now. The
-- double load_factor is the fraction that it stands for; bufCap * 0.8 is cut to 4 * cap / 5, which agrees
-- below 2 ^ 50. Allocation succeeds, except in the arena, which is modelled, and where a call has its
-- success as an argument. A loop over an array is recursion on the list of its elements; a loop with a
-- counter is recursion on the rounds that are left.
--
-- The accelerator is a parameter: whether one was found, and the answer of its copy for a size. What
-- CUDA, OpenCL and Direct3D do is not modelled, and neither are printing, the release of memory, the
-- bodies of the worker threads, the web controller and the code in other languages. Calls run one after the
-- other, but on a ring of the parallel engine the accesses of a producer and of its consumers interleave. umsbb_drain is left out, since the
-- code passes two of three arguments there. The systems that version 3 of the bus adds to its struct are
-- fields of the record Systems and not of the record Bus; total_operations is a field of both.
-- In the standalone core each segment has its own bytes, words have their lowest byte first, the fallback
-- clock counts calls, calls run one after the other, and whether the two blocks of a creation are allocated
-- is an argument. The loop that looks for a handle runs on fuel of 2 ^ 32 rounds, as many as a 32-bit
-- counter takes to come round; no other function does. The handshake reads its clock once for each call.
-- A submission to a fast lane waits over the list of the tails that it reads before its time is up. The WebAssembly core has
-- words of wasm32, and one heap for the segments of all its buffers.
pub mod Prelude
pub mod Capsule
pub mod BiBuffer
pub mod Segments
pub mod Control
pub mod FeedbackStream
pub mod Gpu
pub mod Bus
pub mod Standalone
pub mod WasmCore
pub mod Handshake
pub mod FastLane
pub mod TwinLane
pub mod Parallel
pub mod Bindings
pub mod Systems
pub mod FaultTolerance
mod Tests

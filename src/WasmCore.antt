-- ===== src/WasmCore.antt =====
-- src/umsbb_wasm_core.c: the core for WebAssembly, a file of its own with sixteen buffers, each of up
-- to eight segments in one heap that only grows. The data here; the functions are in the child
-- modules. A word is as on wasm32, where `size_t` and pointers have 32 bits.
pub mod Memory
pub mod Words
pub mod Buffers
pub mod Writing
pub mod Reading
pub mod Queries
pub mod Blocks
pub mod Checksums
pub mod Stored
pub mod Layout
pub mod Pushing
pub mod Places
pub mod Popping
pub mod Creation
pub mod Invariant
pub mod Slots
pub mod Writes
pub mod Reads
pub mod Runs
pub mod Delivery
pub mod Faults
pub mod Unbacked
use universal_multi_segmente.Prelude.{ℕ, ◌*◌, String, Bool, false, Option, none, List, replicate}

abbrev pub max_buffers : ℕ
max_buffers = 16

abbrev pub max_segments : ℕ
max_segments = 8

abbrev pub max_message_size : ℕ
max_message_size = 1024 * 1024

abbrev pub header_size : ℕ
header_size = 16

abbrev pub alignment : ℕ
alignment = 8

pub data ErrorCode : Type 0 where
  success invalid_params buffer_full buffer_empty invalid_buffer message_too_large : ErrorCode
  memory_allocation system_not_initialized : ErrorCode

-- An `int` that a call returns: a number, or one of the codes, of which all but `success`, that is 0,
-- are negative.
pub data Answer : Type 0 where
  number : ℕ → Answer
  code : ErrorCode → Answer

pub record MessageHeader : Type 0 where
  pub size : ℕ
  pub checksum : ℕ
  pub timestamp : ℕ

-- `base`, for the pointer `data`, is an offset in the heap.
pub record Segment : Type 0 where
  pub base : ℕ
  pub write_pos : ℕ
  pub read_pos : ℕ
  pub capacity : ℕ
  pub message_count : ℕ

-- The mean size of a message, a double that nothing reads, has no field.
pub record Stats : Type 0 where
  pub total_messages_written : ℕ
  pub total_messages_read : ℕ
  pub total_bytes_written : ℕ
  pub total_bytes_read : ℕ
  pub pending_messages : ℕ
  pub active_segments : ℕ
  pub peak_pending_messages : ℕ

pub record Buffer : Type 0 where
  pub segments : List Segment
  pub current_write_segment : ℕ
  pub current_read_segment : ℕ
  pub segment_size : ℕ
  pub num_segments : ℕ
  pub stats : Stats
  pub is_initialized : Bool

-- The static variables of `wasm_malloc`: the bytes of the heap and `heap_pos`.
pub record Heap : Type 0 where
  pub bytes : ℕ → ℕ
  pub heap_pos : ℕ

-- The static variables: `g_buffers`, `g_system_initialized`, the heap and the counter that serves as
-- the clock. `g_next_buffer_id` is never read. The structures of the buffers, which lie in the heap,
-- are kept apart from its bytes.
pub record System : Type 0 where
  pub buffers : List (Option Buffer)
  pub initialized : Bool
  pub heap : Heap
  pub counter : ℕ

-- The static variables when the program starts.
abbrev pub start : System
start = record {
  buffers = replicate max_buffers none;
  initialized = false;
  heap = record { bytes = λ o. 0; heap_pos = 0 };
  counter = 0;
}

unfoldable pub get_error_string : ErrorCode → String
get_error_string success = "Success"
get_error_string invalid_params = "Invalid parameters"
get_error_string buffer_full = "Buffer full"
get_error_string buffer_empty = "Buffer empty"
get_error_string invalid_buffer = "Invalid buffer"
get_error_string message_too_large = "Message too large"
get_error_string memory_allocation = "Memory allocation failed"
get_error_string system_not_initialized = "System not initialized"

-- ===== src/Standalone.antt =====
-- src/umsbb_complete_core.c: the bus as one file of its own, with a registry of buffers, eight
-- segments in each, and messages with a header of 64 bytes. The data here; the functions are in the
-- child modules.
pub mod Bytes
pub mod Messages
pub mod Registry
pub mod Handles
pub mod Stored
pub mod Queue
pub mod Queues
pub mod Reading
pub mod Selection
pub mod Accounting
pub mod Wrapping
pub mod Registered
pub mod Delivery
use universal_multi_segmente.Prelude.{ℕ, ◌*◌, String, Bool, Option, List}

pub data ErrorCode : Type 0 where
  success invalid_params buffer_full buffer_empty invalid_handle memory_allocation : ErrorCode
  corrupted_data buffer_overflow invalid_size timeout not_initialized : ErrorCode

abbrev pub max_message_size : ℕ
max_message_size = 64 * 1024

abbrev pub segment_count : ℕ
segment_count = 8

abbrev pub max_buffers : ℕ
max_buffers = 256

abbrev pub header_size : ℕ
header_size = 64

abbrev pub magic_number : ℕ
magic_number = 0x554d5342

-- The 32 reserved bytes, which are always 0, have no field.
pub record MessageHeader : Type 0 where
  pub magic : ℕ
  pub size : ℕ
  pub sequence : ℕ
  pub timestamp : ℕ
  pub checksum : ℕ
  pub flags : ℕ

-- `bytes`, for `data`, gives the byte at each offset from the segment's start; the segments of a buffer lie one
-- behind the other, so each has bytes of its own.
pub record Segment : Type 0 where
  pub read_pos : ℕ
  pub write_pos : ℕ
  pub message_count : ℕ
  pub active : Bool
  pub bytes : ℕ → ℕ
  pub size : ℕ
  pub segment_id : ℕ

pub record Buffer : Type 0 where
  pub magic : ℕ
  pub handle : ℕ
  pub size_mb : ℕ
  pub total_size : ℕ
  pub segments : List Segment
  pub total_messages_written : ℕ
  pub total_messages_read : ℕ
  pub total_bytes_written : ℕ
  pub total_bytes_read : ℕ
  pub write_operations : ℕ
  pub read_operations : ℕ
  pub failed_writes : ℕ
  pub failed_reads : ℕ
  pub max_message_size : ℕ
  pub segment_size : ℕ
  pub active_segments : ℕ
  pub initialized : Bool
  pub last_write_time : ℕ
  pub last_read_time : ℕ
  pub peak_pending_messages : ℕ
  pub current_pending_messages : ℕ

-- The static variables: `g_buffers`, `g_next_handle`, `g_active_buffers` and the counter that serves
-- as the clock.
pub record System : Type 0 where
  pub buffers : ℕ → Option Buffer
  pub next_handle : ℕ
  pub active_buffers : ℕ
  pub counter : ℕ

unfoldable pub get_error_string : ErrorCode → String
get_error_string success = "Success"
get_error_string invalid_params = "Invalid parameters"
get_error_string buffer_full = "Buffer is full"
get_error_string buffer_empty = "Buffer is empty"
get_error_string invalid_handle = "Invalid buffer handle"
get_error_string memory_allocation = "Memory allocation failed"
get_error_string corrupted_data = "Corrupted data detected"
get_error_string buffer_overflow = "Buffer overflow"
get_error_string invalid_size = "Invalid size"
get_error_string timeout = "Operation timeout"
get_error_string not_initialized = "Buffer not initialized"

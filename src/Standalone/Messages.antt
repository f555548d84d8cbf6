-- ===== src/Standalone/Messages.antt =====
-- Writing and reading messages: lines 182 to 248 and 345 to 496 of src/umsbb_complete_core.c. The
-- calls are in the stages that their early returns mark. The bytes at `data` and their number come
-- as one list.
use universal_multi_segmente.Prelude.{
  ℕ, ◌+◌, ◌-◌, ◌%◌, ◌^◌, Bool, ◌&&◌, ◌||◌, not, Option, none, some, List, [], ◌∷◌, ltb, leb, ◌==◌,
  if◌then◌else◌, add_size, sub_size, add32, sub32, length, get_elem?, set, update,
}
use universal_multi_segmente.Standalone.{
  ErrorCode, success, invalid_params, buffer_full, buffer_empty, invalid_handle, corrupted_data,
  invalid_size, max_message_size, max_buffers, header_size, magic_number, MessageHeader, Segment,
  Buffer, System,
}
use universal_multi_segmente.Standalone.Bytes.{
  store, load, encode, decode, calculate_checksum, align_size,
}

-- The loop of `umsbb_select_write_segment`, with the segments that are left, `i`, `best_segment` and
-- `min_pending`.
unfoldable pub least_pending : List Segment → ℕ → ℕ → ℕ → ℕ
least_pending [] i best lowest = best
least_pending (s ∷ ss) i best lowest =
    let pending = sub_size s.write_pos s.read_pos in
    if s.active && ltb pending lowest
    then least_pending ss (i + 1) i pending
    else least_pending ss (i + 1) best lowest

unfoldable pub select_write_segment : List Segment → ℕ
select_write_segment ss = least_pending ss 0 0 (2 ^ 64 - 1)

-- The loop of `umsbb_select_read_segment`, with the segments that are left and `i`.
unfoldable pub first_filled : List Segment → ℕ → ℕ
first_filled [] i = 0
first_filled (s ∷ ss) i = if s.active && ltb 0 s.message_count then i else first_filled ss (i + 1)

unfoldable pub select_read_segment : List Segment → ℕ
select_read_segment ss = first_filled ss 0

unfoldable pub checked_buffer : Option Buffer → Option Buffer
checked_buffer none = none
checked_buffer (some b) = if b.initialized && b.magic == magic_number then some b else none

unfoldable pub find_buffer : System → ℕ → Option Buffer
find_buffer y handle =
    if handle == 0 || leb max_buffers handle then none else checked_buffer (y.buffers handle)

-- The bytes that a message takes in a segment.
unfoldable pub stride : ℕ → ℕ
stride size = align_size (add32 header_size size)

unfoldable pub message_header : ℕ → ℕ → List ℕ → MessageHeader
message_header sequence timestamp bytes = record {
  magic = magic_number;
  size = length bytes;
  sequence = sequence;
  timestamp = timestamp;
  checksum = calculate_checksum bytes;
  flags = 0;
}

-- The header and the data are copied, and the write position and the count of the segment move on.
unfoldable pub fill_segment : Segment → ℕ → ℕ → MessageHeader → List ℕ → Segment
fill_segment s offset position header bytes = record s {
  bytes = store (store s.bytes offset (encode header)) (offset + header_size) bytes;
  write_pos = add_size position (stride (length bytes));
  message_count = add_size s.message_count 1;
}

-- The two ways to go on when the space has been checked: at the write position, or at the start of
-- the segment.
unfoldable pub append_message : Segment → MessageHeader → List ℕ → Segment
append_message s header bytes =
    if ltb s.size (add32 (s.write_pos % s.size) (stride (length bytes)))
    then fill_segment s 0 (add_size s.read_pos s.size) header bytes
    else fill_segment s (s.write_pos % s.size) s.write_pos header bytes

unfoldable pub is_full : Segment → ℕ → Bool
is_full s total_size = ltb (add_size s.read_pos s.size) (add_size s.write_pos total_size)

-- The counters of a buffer after a message of `size` bytes was written at `time`.
unfoldable pub count_write : Buffer → ℕ → ℕ → Buffer
count_write b size time =
    let pending = add32 b.current_pending_messages 1 in
    record b {
      total_messages_written = add_size b.total_messages_written 1;
      total_bytes_written = add_size b.total_bytes_written size;
      write_operations = add_size b.write_operations 1;
      last_write_time = time;
      current_pending_messages = pending;
      peak_pending_messages =
          if ltb b.peak_pending_messages pending then pending else b.peak_pending_messages;
    }

-- `umsbb_write_message` from the selection of the segment on, with the clock's counter.
unfoldable pub write_segment : Buffer → ℕ → ℕ → Segment → List ℕ → ErrorCode × Buffer × ℕ
write_segment b counter i s bytes =
    if is_full s (stride (length bytes))
    then (buffer_full, record b { failed_writes = add_size b.failed_writes 1 }, counter)
    else let time = add_size counter 1 in
      let header = message_header (add_size b.total_messages_written 1) time bytes in
      (
        success,
        count_write (record b { segments = set b.segments i (append_message s header bytes) })
            (length bytes) time,
        time,
      )

-- `umsbb_write_message` with the selected segment. A buffer has the segment that is selected.
unfoldable pub write_selected : Buffer → ℕ → ℕ → List ℕ → Option Segment → ErrorCode × Buffer × ℕ
write_selected b counter i bytes none = (invalid_handle, b, counter)
write_selected b counter i bytes (some s) = write_segment b counter i s bytes

-- `umsbb_write_message` with the buffer that was found.
unfoldable pub write_buffer : Buffer → ℕ → List ℕ → ErrorCode × Buffer × ℕ
write_buffer b counter bytes =
    let i = select_write_segment b.segments in
    write_selected b counter i bytes (get_elem? b.segments i)

unfoldable pub put : System → ℕ → Buffer → ℕ → System
put y handle b counter = record y { buffers = update y.buffers handle (some b); counter = counter }

unfoldable pub write_found : System → ℕ → List ℕ → Option Buffer → ErrorCode × System
write_found y handle bytes none = (invalid_handle, y)
write_found y handle bytes (some b) =
    let (code, b', counter) = write_buffer b y.counter bytes in (code, put y handle b' counter)

unfoldable pub write_message : System → ℕ → List ℕ → ErrorCode × System
write_message y handle bytes =
    if length bytes == 0 || ltb max_message_size (length bytes)
    then (invalid_params, y)
    else write_found y handle bytes (find_buffer y handle)

-- What a read leaves behind its pointers: the bytes copied to `buffer_out`, and `*actual_size` if
-- it was written.
pub record Output : Type 0 where
  pub copied : List ℕ
  pub actual_size : Option ℕ

abbrev pub no_output : Output
no_output = record { copied = []; actual_size = none }

unfoldable pub count_read : Buffer → ℕ → ℕ → Buffer
count_read b size time = record b {
  total_messages_read = add_size b.total_messages_read 1;
  total_bytes_read = add_size b.total_bytes_read size;
  read_operations = add_size b.read_operations 1;
  last_read_time = time;
  current_pending_messages = sub32 b.current_pending_messages 1;
}

abbrev pub fail_read : Buffer → Buffer
fail_read b = record b { failed_reads = add_size b.failed_reads 1 }

-- `umsbb_read_message` with the header and the bytes behind it.
unfoldable pub read_checked :
    Buffer → ℕ → ℕ → Segment → MessageHeader → List ℕ → ErrorCode × Output × Buffer × ℕ
read_checked b counter i s header bytes =
    if calculate_checksum bytes == header.checksum
    then (let time = add_size counter 1 in
        let s' = record s {
          read_pos = add_size s.read_pos (stride header.size);
          message_count = sub_size s.message_count 1;
        } in
        (
          success,
          record { copied = bytes; actual_size = some header.size },
          count_read (record b { segments = set b.segments i s' }) header.size time,
          time,
        ))
    else (corrupted_data, record { copied = bytes; actual_size = none }, fail_read b, counter)

-- `umsbb_read_message` from the reading of the header on.
unfoldable pub read_header :
    Buffer → ℕ → ℕ → Segment → MessageHeader → ℕ → ErrorCode × Output × Buffer × ℕ
read_header b counter i s header buffer_size =
    if not (header.magic == magic_number)
    then (corrupted_data, no_output, fail_read b, counter)
    else if ltb buffer_size header.size
    then (invalid_size, no_output, b, counter)
    else read_checked b counter i s header
        (load s.bytes (s.read_pos % s.size + header_size) header.size)

-- `umsbb_read_message` from the selection of the segment on.
unfoldable pub read_segment : Buffer → ℕ → ℕ → Segment → ℕ → ErrorCode × Output × Buffer × ℕ
read_segment b counter i s buffer_size =
    if s.message_count == 0 || leb s.write_pos s.read_pos
    then (buffer_empty, no_output, b, counter)
    else read_header b counter i s (decode (load s.bytes (s.read_pos % s.size) header_size))
        buffer_size

unfoldable pub read_selected : Buffer → ℕ → ℕ → ℕ → Option Segment → ErrorCode × Output × Buffer × ℕ
read_selected b counter i buffer_size none = (invalid_handle, no_output, b, counter)
read_selected b counter i buffer_size (some s) = read_segment b counter i s buffer_size

unfoldable pub read_buffer : Buffer → ℕ → ℕ → ErrorCode × Output × Buffer × ℕ
read_buffer b counter buffer_size =
    let i = select_read_segment b.segments in
    read_selected b counter i buffer_size (get_elem? b.segments i)

unfoldable pub read_found : System → ℕ → ℕ → Option Buffer → ErrorCode × Output × System
read_found y handle buffer_size none = (invalid_handle, no_output, y)
read_found y handle buffer_size (some b) =
    let (code, out, b', counter) = read_buffer b y.counter buffer_size in
    (code, out, put y handle b' counter)

unfoldable pub read_message : System → ℕ → ℕ → ErrorCode × Output × System
read_message y handle buffer_size =
    if buffer_size == 0
    then (invalid_params, no_output, y)
    else read_found y handle buffer_size (find_buffer y handle)

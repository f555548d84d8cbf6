-- ===== src/WasmCore/Queries.antt =====
-- The counters of a buffer of src/umsbb_wasm_core.c, its performance test and the rest of its
-- interface.
use universal_multi_segmente.Prelude.{
  ℕ, zero, suc, ◌+◌, ◌%◌, ◌^◌, String, Bool, true, false, Option, none, some, List, [], ◌∷◌, ltb,
  if◌then◌else◌, sub_size, get_or,
}
use universal_multi_segmente.Standalone.Bytes.{store, load}
use universal_multi_segmente.WasmCore.{
  max_message_size, ErrorCode, success, invalid_params, invalid_buffer, message_too_large,
  memory_allocation, Answer, number, code, Stats, Buffer, Heap, System,
}
use universal_multi_segmente.WasmCore.Memory.{wasm_malloc}
use universal_multi_segmente.WasmCore.Buffers.{is_rejected, active_buffer}
use universal_multi_segmente.WasmCore.Writing.{write_message}

unfoldable pub counter_of : (Stats → ℕ) → Option Buffer → ℕ
counter_of field none = 0
counter_of field (some b) = field b.stats

unfoldable pub get_counter : (Stats → ℕ) → System → ℕ → ℕ
get_counter field y id =
    if is_rejected y id then 0 else counter_of field (active_buffer (get_or y.buffers id none))

unfoldable pub get_total_messages : System → ℕ → ℕ
get_total_messages = get_counter (λ t. t.total_messages_written)

unfoldable pub get_total_bytes : System → ℕ → ℕ
get_total_bytes = get_counter (λ t. t.total_bytes_written)

unfoldable pub get_pending_messages : System → ℕ → ℕ
get_pending_messages = get_counter (λ t. t.pending_messages)

unfoldable pub get_version : String
get_version = "UMSBB WebAssembly Core v4.0"

abbrev is_success : ErrorCode → Bool
is_success success = true
is_success other = false

-- The loop that fills the test data, with the rounds that are left and `i`.
unfoldable pub test_bytes : ℕ → ℕ → List ℕ
test_bytes zero i = []
test_bytes (suc n) i = i % 256 ∷ test_bytes n (i + 1)

-- The loop that writes, with the rounds that are left. The test data is read from the heap each time.
unfoldable pub write_rounds : ℕ → System → ℕ → ℕ → ℕ → ErrorCode × System
write_rounds zero y id ptr size = (success, y)
write_rounds (suc n) y id ptr size =
    let (result, y') = write_message y id (load y.heap.bytes ptr size) in
    let rest = write_rounds n y' id ptr size in if is_success result then rest else (result, y')

-- The number of messages written, as an `int`, or the code of the write that failed.
unfoldable pub tested : ℕ → ℕ → ErrorCode × System → Answer × System
tested id start (success, y) =
    let written = counter_of (λ t. t.total_messages_written) (get_or y.buffers id none) in
    (number (sub_size written start % 2 ^ 32), y)
tested id start (other, y) = (code other, y)

unfoldable pub test_allocated : System → ℕ → ℕ → ℕ → ℕ → Option ℕ × Heap → Answer × System
test_allocated y id count size start (none, m) = (code memory_allocation, y)
test_allocated y id count size start (some ptr, m) =
    let filled = record m { bytes = store m.bytes ptr (test_bytes size 0) } in
    tested id start (write_rounds count (record y { heap = filled }) id ptr size)

unfoldable pub test_found : System → ℕ → ℕ → ℕ → Option Buffer → Answer × System
test_found y id count size none = (code invalid_buffer, y)
test_found y id count size (some b) =
    test_allocated y id count size b.stats.total_messages_written (wasm_malloc y.heap size)

unfoldable pub run_performance_test : System → ℕ → ℕ → ℕ → Answer × System
run_performance_test y id message_count message_size =
    if is_rejected y id
    then (code invalid_params, y)
    else if ltb max_message_size message_size
    then (code message_too_large, y)
    else test_found y id message_count message_size (active_buffer (get_or y.buffers id none))

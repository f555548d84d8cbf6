-- ===== src/Bus/Drain.antt =====
-- `umsbb_drain_from` of src/universal_multi_segmented_bi_buffer_bus.c, in the stages that the early
-- returns mark.
use universal_multi_segmente.Prelude.{
  ℕ, zero, suc, ◌+◌, ◌%◌, ◌^◌, Bool, true, false, ◌&&◌, Option, none, some, List, [], ◌∷◌, leb,
  if◌then◌else◌, get_elem?,
}
use universal_multi_segmente.Capsule.{Memory, MessageCapsule, capsule_validate}
use universal_multi_segmente.BiBuffer
use universal_multi_segmente.BiBuffer.{BiBuffer}
use universal_multi_segmente.Control.{batch_next, event_clear}
use universal_multi_segmente.FeedbackStream.{corrupted, gpu_executed, cpu_executed, skipped, idle}
use universal_multi_segmente.Gpu.{GpuDriver, try_gpu_execute}
use universal_multi_segmente.Bus.{Bus, log, put_buffer, count_operation}

-- What a drain gives: the block that is returned, `*dataSize`, and the bus after it.
abbrev pub Drained : Type 0
Drained = Option (List ℕ) × ℕ × Bus

-- `memcpy` of `n` bytes from address `p`.
unfoldable pub bytes_at : Memory → ℕ → ℕ → List ℕ
bytes_at m p zero = []
bytes_at m p (suc n) = m p % 256 ∷ bytes_at m (p + 1) n

-- The loop that looks for more data.
pub has_more_data : List BiBuffer → Bool
has_more_data [] = false
has_more_data (b ∷ bs) = elim (BiBuffer.read b) [ none ↦ has_more_data bs | some _ ↦ true ]

unfoldable pub clear_if_idle : Bus → Bus
unfolding has_more_data
clear_if_idle bus =
    if has_more_data bus.ring.buffers
    then bus
    else record bus { scheduler = event_clear bus.scheduler }

-- `umsbb_drain_from` from the copy of the payload on.
unfoldable pub drain_payload :
    GpuDriver → Memory → ℕ → Bus → ℕ → BiBuffer → MessageCapsule → Drained
unfolding clear_if_idle bytes_at log put_buffer count_operation
drain_payload d m now bus lane b c =
    let executed = bus.gpu_enabled && try_gpu_execute d c.size in
    let batched = record bus { batch = batch_next bus.batch (if executed then 95 else 75) } in
    let noted =
      log batched c.header.sequence (if executed then gpu_executed else cpu_executed)
        (if executed then "GPU acceleration successful" else "CPU fallback execution") now in
    let released = count_operation (put_buffer noted lane (BiBuffer.release b)) in
    (some (bytes_at m c.payload c.size), c.size, clear_if_idle released)

-- `umsbb_drain_from` with the capsule that was read.
unfoldable pub drain_capsule :
    GpuDriver → Memory → Bool → ℕ → Bus → ℕ → BiBuffer → MessageCapsule → Drained
unfolding drain_payload
drain_capsule d m allocated now bus lane b c =
    if capsule_validate m c
    then (if allocated then drain_payload d m now bus lane b c else (
      none,
      0,
      put_buffer (log bus c.header.sequence skipped "Memory allocation failed" now) lane
          (BiBuffer.release b),
    ))
    else (
      none,
      0,
      put_buffer
          (log bus c.header.sequence corrupted "Checksum mismatch - state machine integrity failure"
            now)
          lane (BiBuffer.release b),
    )

-- `umsbb_drain_from` with what stands at the offset that was read. A read of memory that was never
-- written is undefined in C, and gives nothing here.
unfoldable pub drain_stored :
    GpuDriver → Memory → Bool → ℕ → Bus → ℕ → BiBuffer → Option MessageCapsule → Drained
unfolding drain_capsule
drain_stored d m allocated now bus lane b none = (none, 0, bus)
drain_stored d m allocated now bus lane b (some c) = drain_capsule d m allocated now bus lane b c

-- `umsbb_drain_from` from the answer of the read on.
unfoldable pub drain_answered :
    GpuDriver → Memory → Bool → ℕ → Bus → ℕ → BiBuffer → Option (ℕ × ℕ) → Drained
unfolding drain_stored
drain_answered d m allocated now bus lane b none =
    (none, 0, log bus (bus.sequence % 2 ^ 32) idle "No data to drain" now)
drain_answered d m allocated now bus lane b (some (offset, _)) =
    drain_stored d m allocated now bus lane b (b.region_a offset)

-- `umsbb_drain_from` for a lane that exists.
unfoldable pub drain_lane : GpuDriver → Memory → Bool → ℕ → Bus → ℕ → BiBuffer → Drained
unfolding drain_answered
drain_lane d m allocated now bus lane b =
    drain_answered d m allocated now bus lane b (BiBuffer.read b)

unfoldable pub umsbb_drain_from : GpuDriver → Memory → Bool → ℕ → Bus → ℕ → Drained
unfolding drain_lane
umsbb_drain_from d m allocated now bus lane =
    if leb bus.ring.active_count lane
    then (none, 0, bus)
    else elim (get_elem? bus.ring.buffers lane) [
      | none ↦ (none, 0, bus)
      | some b ↦ drain_lane d m allocated now bus lane b
    ]

-- ===== src/Bus/Submit.antt =====
-- `umsbb_submit_to` and `umsbb_submit` of src/universal_multi_segmented_bi_buffer_bus.c, in the stages
-- that the early returns mark.
use universal_multi_segmente.Prelude.{
  ℕ, ◌*◌, ◌%◌, ◌^◌, Bool, true, false, ◌&&◌, Option, none, some, ltb, leb, if◌then◌else◌, add_size,
  get_elem?,
}
use universal_multi_segmente.Capsule.{Memory, MessageCapsule, capsule_size, capsule_wrap}
use universal_multi_segmente.BiBuffer
use universal_multi_segmente.BiBuffer.{BiBuffer}
use universal_multi_segmente.Segments.Arena.{ArenaAllocator, arena_alloc}
use universal_multi_segmente.Control.{batch_next, flow_should_throttle, event_signal}
use universal_multi_segmente.FeedbackStream.{ok, throttled, skipped}
use universal_multi_segmente.Gpu.{GpuDriver, try_gpu_execute}
use universal_multi_segmente.Bus.{Bus, log, put_buffer, count_operation, copy_capsule}

-- `umsbb_submit_to` behind a claim that succeeded at offset `p` and left the lane `claimed`.
unfoldable pub submit_claimed : ℕ → Bus → ℕ → ℕ → BiBuffer → MessageCapsule → Bool × Bus
unfolding log put_buffer count_operation copy_capsule
submit_claimed now bus lane p claimed c =
    let written = BiBuffer.commit (copy_capsule claimed p c) capsule_size in
    let signalled = record (put_buffer bus lane written) {
      scheduler = event_signal bus.scheduler;
    } in
    let noted =
      count_operation (log signalled c.header.sequence ok "Message submitted successfully" now) in
    (
      true,
      record noted {
        load_factor = record { num = noted.total_operations; den = noted.segment_count * 1000 };
      },
    )

-- `umsbb_submit_to` from the answer of the claim on.
unfoldable pub submit_answered : ℕ → Bus → ℕ → MessageCapsule → Option ℕ × BiBuffer → Bool × Bus
unfolding submit_claimed
submit_answered now bus lane c (none, claimed) =
    (false, log (put_buffer bus lane claimed) c.header.sequence skipped "Buffer claim failed" now)
submit_answered now bus lane c (some p, claimed) = submit_claimed now bus lane p claimed c

-- `umsbb_submit_to` from the claim on, with the capsule in the arena.
unfoldable pub submit_claim : ℕ → Bus → ℕ → BiBuffer → MessageCapsule → Bool × Bus
unfolding submit_answered
submit_claim now bus lane target c =
    submit_answered now bus lane c (BiBuffer.claim target capsule_size)

-- `umsbb_submit_to` from the answer of the arena on, with the sequence number of the call.
unfoldable pub submit_placed :
    Memory → ℕ → Bus → ℕ → BiBuffer → ℕ → ℕ → Option ℕ × ArenaAllocator → Bool × Bus
unfolding submit_claim
submit_placed m now bus lane target msg size (none, arena) =
    (false, log bus (bus.sequence % 2 ^ 32) skipped "Arena allocation failed" now)
submit_placed m now bus lane target msg size (some _, arena) =
    submit_claim now (record bus { arena = arena; sequence = add_size bus.sequence 1 }) lane target
      (capsule_wrap m now (bus.sequence % 2 ^ 32) msg size)

-- `umsbb_submit_to` from the batching on.
unfoldable pub submit_capsule : Memory → ℕ → Bus → ℕ → BiBuffer → ℕ → ℕ → Bool × Bus
unfolding submit_placed
submit_capsule m now bus lane target msg size =
    let batched = record bus { batch = batch_next bus.batch 85 } in
    submit_placed m now batched lane target msg size (arena_alloc batched.arena capsule_size)

-- `umsbb_submit_to` for a lane that exists.
unfoldable pub submit_lane : GpuDriver → Memory → ℕ → Bus → ℕ → BiBuffer → ℕ → ℕ → Bool × Bus
unfolding submit_capsule
submit_lane d m now bus lane target msg size =
    if flow_should_throttle target bus.flow
    then (false, log bus (bus.sequence % 2 ^ 32) throttled "High-water mark reached" now)
    else if bus.gpu_enabled && ltb (1024 * 1024) size && try_gpu_execute d size
    then (true, count_operation bus)
    else submit_capsule m now bus lane target msg size

-- The ring's list has the active buffers, so that the second way to fail is never taken.
unfoldable pub umsbb_submit_to : GpuDriver → Memory → ℕ → Bus → ℕ → ℕ → ℕ → Bool × Bus
unfolding submit_lane
umsbb_submit_to d m now bus lane msg size =
    if leb bus.ring.active_count lane
    then (false, bus)
    else elim (get_elem? bus.ring.buffers lane) [
      | none ↦ (false, bus)
      | some target ↦ submit_lane d m now bus lane target msg size
    ]

-- The result of `umsbb_submit_to` is dropped. The modulus is not 0 on a ring with an active buffer.
unfoldable pub umsbb_submit : GpuDriver → Memory → ℕ → Bus → ℕ → ℕ → Bus
umsbb_submit d m now bus msg size =
    let lane = bus.ring.current_index in
    let sent = (umsbb_submit_to d m now bus lane msg size).1 in
    record sent {
      ring = record sent.ring { current_index = add_size lane 1 % sent.ring.active_count };
    }

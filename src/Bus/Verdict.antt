-- ===== src/Bus/Verdict.antt =====
-- Which of its outcomes a submission has, and what each is logged as.
use universal_multi_segmente.Prelude.{
  ℕ, ◌+◌, ◌%◌, ◌^◌, ◌<◌, String, ◌≡◌, refl, ◌∙◌, inl, inr, Bool, true, false, some, arith, ltb,
  if◌then◌else◌, ltb→lt, ltb→ge, Bool-cases, get_elem?, All-get,
}
use universal_multi_segmente.Capsule.{Memory, capsule_size, capsule_wrap}
use universal_multi_segmente.BiBuffer.{BiBuffer}
use universal_multi_segmente.FeedbackStream.{FeedbackType, ok, throttled, skipped, feedback_push}
use universal_multi_segmente.Gpu.{GpuDriver}
use universal_multi_segmente.BiBuffer.Invariant.{IsValid}
use universal_multi_segmente.Segments.Arena.{IsArena}
use universal_multi_segmente.Bus.{Bus, log, put_buffer, count_operation}
use universal_multi_segmente.Bus.Submit.{submit_claim, submit_capsule, submit_lane, umsbb_submit_to}
use universal_multi_segmente.Bus.Lanes.{IsLane}
use universal_multi_segmente.Bus.Outcomes.{
  delivered, submit_claim-fits, submit_claim-full, numbered, submit_capsule-room,
  submit_capsule-exhausted, submit_to-lane,
}
use universal_multi_segmente.Bus.Outcomes.{submit_lane-throttled, submit_lane-cpu}
use universal_multi_segmente.Bus.Invariant.{IsBus}
use universal_multi_segmente.Control.Backpressure.{throttle_lem}

-- What a submission on the processor comes to, in the order in which the code finds out.
pub data Verdict : Type 0 where
  throttle no_arena no_room delivery : Verdict

pub verdict : Bus → BiBuffer → Verdict
verdict bus b =
    if ltb (bus.flow.threshold + b.read_index) b.write_index
    then throttle
    else if ltb bus.arena.capacity (bus.arena.offset + capsule_size)
    then no_arena
    else if ltb b.capacity (b.write_index + capsule_size)
    then no_room
    else delivery

abbrev pub accepts : Verdict → Bool
accepts delivery = true
accepts _ = false

-- What the log says of it.
abbrev pub entry_type : Verdict → FeedbackType
entry_type throttle = throttled
entry_type no_arena = skipped
entry_type no_room = skipped
entry_type delivery = ok

abbrev pub entry_note : Verdict → String
entry_note throttle = "High-water mark reached"
entry_note no_arena = "Arena allocation failed"
entry_note no_room = "Buffer claim failed"
entry_note delivery = "Message submitted successfully"

-- How many sequence numbers it uses up, and how many operations it counts.
abbrev pub numbers_used : Verdict → ℕ
numbers_used throttle = 0
numbers_used no_arena = 0
numbers_used no_room = 1
numbers_used delivery = 1

abbrev pub operations : Verdict → ℕ
operations delivery = 1
operations _ = 0

pub record HasOutcome (bus : Bus) (now : ℕ) (v : Verdict) (r : Bool × Bus) : Type 0 where
  pub answer : r.0 ≡ accepts v
  pub entry :
      r.1.feedback
      ≡ feedback_push bus.feedback (record {
        sequence = bus.sequence % 2 ^ 32;
        type = entry_type v;
        note = entry_note v;
        timestamp = now % 2 ^ 64;
      })
  pub numbered : r.1.sequence ≡ (bus.sequence + numbers_used v) % 2 ^ 64
  pub counted : r.1.total_operations ≡ (bus.total_operations + operations v) % 2 ^ 64

claim-outcome :
    (m : Memory) (now : ℕ) (bus : Bus) (lane : ℕ) (b : BiBuffer) (msg size : ℕ)
    → IsValid b
    → bus.total_operations < 2 ^ 64
    → HasOutcome bus now
        (if ltb b.capacity (b.write_index + capsule_size) then no_room else delivery)
        (submit_claim now
          (numbered bus)
          lane
          b
          (capsule_wrap m now (bus.sequence % 2 ^ 32) msg size))
unfolding numbered capsule_wrap log put_buffer delivered count_operation
claim-outcome m now bus lane b msg size v t =
    elim (Bool-cases (ltb b.capacity (b.write_index + capsule_size))) [
      | inl full ↦
          rw
            (
              full,
              submit_claim-full now (numbered bus) lane b v
                  (capsule_wrap m now (bus.sequence % 2 ^ 32) msg size) (ltb→lt _ _ full),
            )
            (record { answer = refl; entry = refl; numbered = refl; counted = omega arith })
      | inr fits ↦
          rw
            (
              fits,
              submit_claim-fits now (numbered bus) lane b v
                  (capsule_wrap m now (bus.sequence % 2 ^ 32) msg size) (ltb→ge _ _ fits),
            )
            (record { answer = refl; entry = refl; numbered = refl; counted = refl })
    ]

capsule-outcome :
    (m : Memory) (now : ℕ) (bus : Bus) (lane : ℕ) (b : BiBuffer) (msg size : ℕ)
    → IsValid b
    → IsArena bus.arena
    → bus.sequence < 2 ^ 64
    → bus.total_operations < 2 ^ 64
    → HasOutcome bus now
        (if ltb bus.arena.capacity (bus.arena.offset + capsule_size)
          then no_arena
          else if ltb b.capacity (b.write_index + capsule_size)
          then no_room
          else delivery)
        (submit_capsule m now bus lane b msg size)
unfolding log
capsule-outcome m now bus lane b msg size v a q t =
    elim (Bool-cases (ltb bus.arena.capacity (bus.arena.offset + capsule_size))) [
      | inl full ↦
          rw (full, submit_capsule-exhausted m now bus lane b msg size a (ltb→lt _ _ full))
            (record { answer = refl; entry = refl; numbered = omega arith; counted = omega arith })
      | inr room ↦
          rw (room, submit_capsule-room m now bus lane b msg size a (ltb→ge _ _ room))
            (claim-outcome m now bus lane b msg size v t)
    ]

lane-outcome :
    (d : GpuDriver) (m : Memory) (now : ℕ) (bus : Bus) (lane : ℕ) (b : BiBuffer) (msg size : ℕ)
    → IsValid b
    → IsArena bus.arena
    → bus.sequence < 2 ^ 64
    → bus.total_operations < 2 ^ 64
    → bus.gpu_enabled ≡ false
    → HasOutcome bus now (verdict bus b) (submit_lane d m now bus lane b msg size)
unfolding log verdict
lane-outcome d m now bus lane b msg size v a q t cpu =
    elim (Bool-cases (ltb (bus.flow.threshold + b.read_index) b.write_index)) [
      | inl over ↦
          rw
            (
              over,
              submit_lane-throttled d m now bus lane b msg size (throttle_lem bus.flow v ∙ over),
            )
            (record { answer = refl; entry = refl; numbered = omega arith; counted = omega arith })
      | inr under ↦
          rw
            (
              under,
              submit_lane-cpu d m now bus lane b msg size (throttle_lem bus.flow v ∙ under) cpu,
            )
            (capsule-outcome m now bus lane b msg size v a q t)
    ]

-- A submission to an active lane of a well-formed bus without an accelerator answers yes exactly when
-- the lane's backlog is at most the threshold and the arena and the buffer have room. Each of the
-- four ways that it can go makes one log entry of its own kind, with the number that the message
-- gets or would have got; a number is used up once the arena has given a place.
pub submit_to-outcome :
    (d : GpuDriver) (m : Memory) (now : ℕ) (bus : Bus) (lane : ℕ) (b : BiBuffer) (msg size : ℕ)
    → IsBus bus
    → lane < bus.ring.active_count
    → get_elem? bus.ring.buffers lane ≡ some b
    → bus.sequence < 2 ^ 64
    → bus.total_operations < 2 ^ 64
    → bus.gpu_enabled ≡ false
    → HasOutcome bus now (verdict bus b) (umsbb_submit_to d m now bus lane msg size)
submit_to-outcome d m now bus lane b msg size v h e q t cpu =
    rw (submit_to-lane d m now bus lane msg size b h e) (
      lane-outcome d m now bus lane b msg size
        (All-get IsLane bus.ring.buffers lane b v.lanes e).valid v.arena q t cpu)

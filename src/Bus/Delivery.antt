-- ===== src/Bus/Delivery.antt =====
-- A message through the bus: `umsbb_submit_to` and then `umsbb_drain_from`, on one lane.
use universal_multi_segmente.Prelude.{
  ℕ, zero, suc, ◌+◌, ◌%◌, ◌^◌, ◌≤◌, ◌<◌, ◌≡◌, refl, ap, ap₂, ◌∙◌, subst, ◌≢◌, Bool, true, false,
  none, some, ◌∷◌, arith, ge→ltb, get_elem?, set, get_elem?-set_self, get_elem?-some, All-get,
}
use universal_multi_segmente.Capsule.{Memory, MessageCapsule, capsule_size, capsule_wrap}
use universal_multi_segmente.BiBuffer.{BiBuffer}
use universal_multi_segmente.Control.{flow_should_throttle}
use universal_multi_segmente.FeedbackStream.{corrupted, feedback_push}
use universal_multi_segmente.Gpu.{GpuDriver}
use universal_multi_segmente.BiBuffer.{read, release}
use universal_multi_segmente.Bus.{Bus, log, put_buffer, count_operation}
use universal_multi_segmente.Bus.Submit.{umsbb_submit_to}
use universal_multi_segmente.Bus.Drain.{Drained, bytes_at, drain_capsule, umsbb_drain_from}
use universal_multi_segmente.Bus.Lanes.{IsLane, sent}
use universal_multi_segmente.Bus.Outcomes.{
  delivered, submit_claim-fits, numbered, submit_capsule-room, submit_to-lane,
}
use universal_multi_segmente.Bus.Invariant.{IsBus}
use universal_multi_segmente.Bus.Outcomes.{
  submit_lane-cpu, buffers-delivered, active_count-delivered,
}
use universal_multi_segmente.Bus.DrainOutcomes.{
  drain_from-capsule, buffers-drain_capsule, drain_capsule-valid, drain_capsule-corrupt,
}
use universal_multi_segmente.Bus.Lanes.{read-sent, stored-sent, drained-release-sent}
use universal_multi_segmente.Capsule.Integrity.{SameBut, validate-same, one_byte_detected}
use universal_multi_segmente.Control.Backpressure.{throttle_lem}

-- A lane of a well-formed bus that is drained and has room for one message more, in its buffer and in
-- the arena.
pub record IsDrainedWithRoom (bus : Bus) (lane : ℕ) (b : BiBuffer) : Type 0 where
  pub well_formed : IsBus bus
  pub active : lane < bus.ring.active_count
  pub buffer : get_elem? bus.ring.buffers lane ≡ some b
  pub roomy : 16 ≤ b.capacity
  pub drained : b.read_index ≡ b.write_index
  pub fits : b.write_index + capsule_size ≤ b.capacity
  pub arena_fits : bus.arena.offset + capsule_size ≤ bus.arena.capacity
  pub cpu_only : bus.gpu_enabled ≡ false

module _ (d : GpuDriver) (m : Memory) (now : ℕ) {bus : Bus} {lane : ℕ} {b : BiBuffer}
    (h : IsDrainedWithRoom bus lane b) (msg size : ℕ) where
  abbrev pub capsule : MessageCapsule
  capsule = capsule_wrap m now (bus.sequence % 2 ^ 32) msg size

  IsDrainedWithRoom-IsLane : IsLane b
  IsDrainedWithRoom-IsLane = All-get IsLane bus.ring.buffers lane b h.well_formed.lanes h.buffer

  not_throttled : flow_should_throttle b bus.flow ≡ false
  not_throttled =
      throttle_lem bus.flow IsDrainedWithRoom-IsLane.valid ∙ ge→ltb _ _ (omega (arith, h.drained))

  submit-room :
      umsbb_submit_to d m now bus lane msg size
      ≡ (true, delivered now (numbered bus) lane b capsule)
  submit-room =
      submit_to-lane d m now bus lane msg size b h.active h.buffer
      ∙ submit_lane-cpu d m now bus lane b msg size not_throttled h.cpu_only
      ∙ submit_capsule-room m now bus lane b msg size h.well_formed.arena h.arena_fits
      ∙ submit_claim-fits now (numbered bus) lane b IsDrainedWithRoom-IsLane.valid capsule h.fits

  pub segment_count-submit :
      (umsbb_submit_to d m now bus lane msg size).1.segment_count ≡ bus.segment_count
  unfolding delivered numbered log put_buffer count_operation
  segment_count-submit = rw submit-room refl

  buffers-numbered : (numbered bus).ring ≡ bus.ring
  unfolding numbered
  buffers-numbered = refl

  after : Bus
  after = delivered now (numbered bus) lane b capsule

  buffers-after : after.ring.buffers ≡ set bus.ring.buffers lane (sent b capsule)
  unfolding after numbered
  buffers-after = buffers-delivered now (numbered bus) lane b capsule

  buffer-after : get_elem? after.ring.buffers lane ≡ some (sent b capsule)
  buffer-after = rw buffers-after (
      get_elem?-set_self bus.ring.buffers lane (sent b capsule)
        (get_elem?-some bus.ring.buffers lane b h.buffer))

  active-after : lane < after.ring.active_count
  unfolding after numbered
  active-after = rw (active_count-delivered now (numbered bus) lane b capsule) h.active

  module _ (m' : Memory) (allocated : Bool) (later : ℕ) where
    drain-after :
        umsbb_drain_from d m' allocated later after lane
        ≡ drain_capsule d m' allocated later after lane (sent b capsule) capsule
    drain-after =
        drain_from-capsule d m' allocated later after lane (sent b capsule) b.write_index
          capsule_size capsule active-after buffer-after
          (read-sent capsule IsDrainedWithRoom-IsLane h.roomy h.fits h.drained)
          (stored-sent capsule IsDrainedWithRoom-IsLane h.roomy h.fits)

    buffer-drained :
        get_elem?
          (drain_capsule d m' allocated later after lane (sent b capsule) capsule).2.ring.buffers
          lane
        ≡ some (release (sent b capsule))
    buffer-drained =
        rw (buffers-drain_capsule d m' allocated later after lane (sent b capsule) capsule) (
          get_elem?-set_self after.ring.buffers lane (release (sent b capsule))
            (get_elem?-some after.ring.buffers lane (sent b capsule) buffer-after))

-- A lane that holds no message.
pub record IsDrained (bus : Bus) (lane : ℕ) : Type 0 where
  pub left : BiBuffer
  pub at_lane : get_elem? bus.ring.buffers lane ≡ some left
  pub level : left.read_index ≡ left.write_index
  pub nothing : read left ≡ none

bytes_at-same :
    (m m' : Memory) (p n : ℕ)
    → ((j : ℕ) → j < n → m' (p + j) % 256 ≡ m (p + j) % 256)
    → bytes_at m' p n ≡ bytes_at m p n
unfolding bytes_at
bytes_at-same m m' p zero h = refl
bytes_at-same m m' p (suc n) h =
    ap₂ ◌∷◌ (subst (λ q. m' q % 256 ≡ m q % 256) (omega arith) (h 0 (omega arith))) (
      bytes_at-same m m' (p + 1) n
        (λ j lt. subst (λ q. m' q % 256 ≡ m q % 256) (omega arith) (h (j + 1) (omega arith))))

-- On a well-formed bus without an accelerator, on a lane that is drained, so that no older message
-- waits there, and that has room in its buffer and in the arena, a submission succeeds. A drain of
-- that lane then returns the bytes that the payload had and their number, if they are unchanged in
-- memory until then and `malloc` gives a block, and leaves the lane drained.
pub submit-drain :
    (d : GpuDriver) (m m' : Memory) (now later : ℕ) {bus : Bus} {lane : ℕ} {b : BiBuffer}
    (msg size : ℕ)
    → IsDrainedWithRoom bus lane b
    → ((j : ℕ) → j < size → m' (msg + j) % 256 ≡ m (msg + j) % 256)
    → let (accepted, bus') = umsbb_submit_to d m now bus lane msg size in
      let (block, data_size, bus'') = umsbb_drain_from d m' true later bus' lane in
      (accepted ≡ true)
      × (block ≡ some (bytes_at m msg size))
      × (data_size ≡ size)
      × IsDrained bus'' lane
unfolding after capsule_wrap
submit-drain d m m' now later {bus} {lane} {b} msg size h same =
    let valid = validate-same m m' now (bus.sequence % 2 ^ 32) msg size same in
    let v =
      drain_capsule-valid d m' true later (after d m now h msg size) lane
        (sent b (capsule d m now h msg size)) (capsule d m now h msg size) valid refl in
    let r =
      drained-release-sent (capsule d m now h msg size)
        (IsDrainedWithRoom-IsLane d m now h msg size) h.roomy h.fits h.drained in
    rw (submit-room d m now h msg size) (
      rw (drain-after d m now h msg size m' true later) (
        refl,
        v.0 ∙ ap some (bytes_at-same m m' msg size same),
        v.1,
        record {
          left = release (sent b (capsule d m now h msg size));
          at_lane = buffer-drained d m now h msg size m' true later;
          level = r.0;
          nothing = r.1;
        },
      ))

-- On a well-formed bus without an accelerator, on a lane that is drained, so that no older message
-- waits there, and that has room in its buffer and in the arena: if one byte of the payload, and no
-- other, changes between the submission and the drain, the drain returns nothing, and the message is
-- gone: the lane is drained, and the log has the entry that says so, unless it is full.
pub submit-drain_corrupted :
    (d : GpuDriver) (m m' : Memory) (allocated : Bool) (now later : ℕ) {bus : Bus} {lane : ℕ}
    {b : BiBuffer} (msg size k : ℕ)
    → IsDrainedWithRoom bus lane b
    → k < size
    → m' (msg + k) % 256 ≢ m (msg + k) % 256
    → SameBut m m' msg size k
    → let bus' = (umsbb_submit_to d m now bus lane msg size).1 in
      let (block, data_size, bus'') = umsbb_drain_from d m' allocated later bus' lane in
      (block ≡ none)
      × (data_size ≡ 0)
      × (bus''.feedback
          ≡ feedback_push bus'.feedback (record {
            sequence = bus.sequence % 2 ^ 32;
            type = corrupted;
            note = "Checksum mismatch - state machine integrity failure";
            timestamp = later % 2 ^ 64;
          }))
      × IsDrained bus'' lane
unfolding after capsule_wrap log put_buffer
submit-drain_corrupted d m m' allocated now later {bus} {lane} {b} msg size k h lt ne same =
    let refused = one_byte_detected m m' now (bus.sequence % 2 ^ 32) msg size k lt ne same in
    let c = capsule d m now h msg size in
    let r =
      drained-release-sent c (IsDrainedWithRoom-IsLane d m now h msg size) h.roomy h.fits
        h.drained in
    let e =
      drain_capsule-corrupt d m' allocated later (after d m now h msg size) lane (sent b c) c
        refused in
    rw (submit-room d m now h msg size) (
      rw (drain-after d m now h msg size m' allocated later) (
        ap (λ (x : Drained). x.0) e,
        ap (λ (x : Drained). x.1) e,
        ap (λ (x : Drained). x.2.feedback) e,
        record {
          left = release (sent b c);
          at_lane = buffer-drained d m now h msg size m' allocated later;
          level = r.0;
          nothing = r.1;
        },
      ))

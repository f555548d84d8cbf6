-- ===== src/Bus/Invariant.antt =====
-- What `umsbb_submit_to` and `umsbb_drain_from` keep true of the bus.
use universal_multi_segmente.Prelude.{
  ℕ, ◌+◌, ◌≤◌, String, sym, ◌∙◌, inl, inr, ltb, leb, ltb→lt, ltb→ge, leb→le, leb→gt, Bool-cases,
  Option-cases, get_elem?, length-set, All, All-get, All-set,
}
use universal_multi_segmente.Capsule.{Memory, MessageCapsule, capsule_size}
use universal_multi_segmente.BiBuffer.{BiBuffer}
use universal_multi_segmente.Control.{batch_next, flow_should_throttle, EventScheduler}
use universal_multi_segmente.FeedbackStream.{FeedbackType, max_entries}
use universal_multi_segmente.Gpu.{GpuDriver}
use universal_multi_segmente.BiBuffer.Invariant.{IsValid}
use universal_multi_segmente.Segments.Turns.{IsRing}
use universal_multi_segmente.Segments.Arena.{IsArena}
use universal_multi_segmente.Control.Batching.{IsBatch, batch_next-IsBatch}
use universal_multi_segmente.FeedbackStream.Log.{view-push}
use universal_multi_segmente.Bus.{Ratio, Bus, log, put_buffer, count_operation}
use universal_multi_segmente.Bus.Submit.{submit_claim, submit_capsule, submit_lane, umsbb_submit_to}
use universal_multi_segmente.Bus.Lanes.{IsLane, sent-IsLane}
use universal_multi_segmente.Bus.Outcomes.{
  delivered, submit_claim-fits, submit_claim-full, numbered, submit_capsule-room,
  submit_capsule-exhausted, on_gpu, submit_to-lane, submit_to-no_lane,
}

pub record IsBus (bus : Bus) : Type 0 where
  pub ring : IsRing bus.ring
  pub lanes : All IsLane bus.ring.buffers
  pub arena : IsArena bus.arena
  pub batch : IsBatch bus.batch
  pub logged : bus.feedback.count ≤ max_entries

module _ {bus : Bus} (v : IsBus bus) where
  pub log-IsBus :
      (sequence : ℕ) (type : FeedbackType) (note : String) (now : ℕ)
      → IsBus (log bus sequence type note now)
  unfolding log
  log-IsBus sequence type note now = record {
    ring = v.ring;
    lanes = v.lanes;
    arena = v.arena;
    batch = v.batch;
    logged = (view-push bus.feedback _ v.logged).1;
  }

  pub put_buffer-IsBus : (lane : ℕ) {b : BiBuffer} → IsLane b → IsBus (put_buffer bus lane b)
  unfolding put_buffer
  put_buffer-IsBus lane {b} l = record {
    ring = record {
      counted = v.ring.counted ∙ sym (length-set bus.ring.buffers lane b);
      at_most = v.ring.at_most;
      turn = v.ring.turn;
      valid = All-set IsValid bus.ring.buffers lane b v.ring.valid l.valid;
    };
    lanes = All-set IsLane bus.ring.buffers lane b v.lanes l;
    arena = v.arena;
    batch = v.batch;
    logged = v.logged;
  }

  pub count_operation-IsBus : IsBus (count_operation bus)
  unfolding count_operation
  count_operation-IsBus = record {
    ring = v.ring;
    lanes = v.lanes;
    arena = v.arena;
    batch = v.batch;
    logged = v.logged;
  }

  pub batched-IsBus : (score : ℕ) → IsBus (record bus { batch = batch_next bus.batch score })
  batched-IsBus score = record {
    ring = v.ring;
    lanes = v.lanes;
    arena = v.arena;
    batch = batch_next-IsBatch score v.batch;
    logged = v.logged;
  }

  pub signalled-IsBus : (e : EventScheduler) → IsBus (record bus { scheduler = e })
  signalled-IsBus e = record {
    ring = v.ring;
    lanes = v.lanes;
    arena = v.arena;
    batch = v.batch;
    logged = v.logged;
  }

  loaded-IsBus : (r : Ratio) → IsBus (record bus { load_factor = r })
  loaded-IsBus r = record {
    ring = v.ring;
    lanes = v.lanes;
    arena = v.arena;
    batch = v.batch;
    logged = v.logged;
  }

  numbered-IsBus : bus.arena.offset + capsule_size ≤ bus.arena.capacity → IsBus (numbered bus)
  unfolding numbered
  numbered-IsBus h = record {
    ring = v.ring;
    lanes = v.lanes;
    arena = record { small = v.arena.small; within = h };
    batch = batch_next-IsBatch 85 v.batch;
    logged = v.logged;
  }

delivered-IsBus :
    {bus : Bus} (now lane : ℕ) {b : BiBuffer} (c : MessageCapsule)
    → IsBus bus
    → IsLane b
    → b.write_index + capsule_size ≤ b.capacity
    → IsBus (delivered now bus lane b c)
unfolding delivered
delivered-IsBus now lane c v l h =
    loaded-IsBus
      (count_operation-IsBus
        (log-IsBus (signalled-IsBus (put_buffer-IsBus v lane (sent-IsLane c l h)) _) _ _ _ now))
      _

submit_claim-IsBus :
    {bus : Bus} (now lane : ℕ) {b : BiBuffer} (c : MessageCapsule)
    → IsBus bus
    → IsLane b
    → IsBus (submit_claim now bus lane b c).1
submit_claim-IsBus {bus} now lane {b} c v l =
    elim (Bool-cases (ltb b.capacity (b.write_index + capsule_size))) [
      | inl full ↦
          rw (submit_claim-full now bus lane b l.valid c (ltb→lt _ _ full))
            (log-IsBus (put_buffer-IsBus v lane l) _ _ _ now)
      | inr fits ↦
          rw (submit_claim-fits now bus lane b l.valid c (ltb→ge _ _ fits))
            (delivered-IsBus now lane c v l (ltb→ge _ _ fits))
    ]

submit_capsule-IsBus :
    {bus : Bus} (m : Memory) (now lane : ℕ) {b : BiBuffer} (msg size : ℕ)
    → IsBus bus
    → IsLane b
    → IsBus (submit_capsule m now bus lane b msg size).1
submit_capsule-IsBus {bus} m now lane {b} msg size v l =
    elim (Bool-cases (ltb bus.arena.capacity (bus.arena.offset + capsule_size))) [
      | inl full ↦
          rw (submit_capsule-exhausted m now bus lane b msg size v.arena (ltb→lt _ _ full))
            (log-IsBus (batched-IsBus v 85) _ _ _ now)
      | inr room ↦
          rw (submit_capsule-room m now bus lane b msg size v.arena (ltb→ge _ _ room))
            (submit_claim-IsBus now lane _ (numbered-IsBus v (ltb→ge _ _ room)) l)
    ]

submit_lane-IsBus :
    {bus : Bus} (d : GpuDriver) (m : Memory) (now lane : ℕ) {b : BiBuffer} (msg size : ℕ)
    → IsBus bus
    → IsLane b
    → IsBus (submit_lane d m now bus lane b msg size).1
unfolding submit_lane
submit_lane-IsBus {bus} d m now lane {b} msg size v l =
    elim (Bool-cases (flow_should_throttle b bus.flow)) [
      | inl throttle ↦ rw throttle (log-IsBus v _ _ _ now)
      | inr pass ↦ rw pass (elim (Bool-cases (on_gpu d m now bus lane msg size)) [
        | inl gpu ↦ rw gpu (count_operation-IsBus v)
        | inr cpu ↦ rw cpu (submit_capsule-IsBus m now lane msg size v l)
      ])
    ]

-- Whatever a submission meets, and whether or not it succeeds, it leaves a well-formed bus.
pub submit_to-IsBus :
    {bus : Bus} (d : GpuDriver) (m : Memory) (now lane msg size : ℕ)
    → IsBus bus
    → IsBus (umsbb_submit_to d m now bus lane msg size).1
unfolding umsbb_submit_to
submit_to-IsBus {bus} d m now lane msg size v = elim (Bool-cases (leb bus.ring.active_count lane)) [
  | inl out ↦ rw (submit_to-no_lane d m now bus lane msg size (leb→le _ _ out)) v
  | inr on ↦ elim (Option-cases (get_elem? bus.ring.buffers lane)) [
    | inl e ↦ rw (on, e, umsbb_submit_to) v
    | inr (b, e) ↦ rw (submit_to-lane d m now bus lane msg size b (leb→gt _ _ on) e) (
        submit_lane-IsBus d m now lane msg size v
          (All-get IsLane bus.ring.buffers lane b v.lanes e))
  ]
]

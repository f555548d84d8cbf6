-- ===== src/Bus/History.antt =====
-- The bus from `umsbb_init` on, through every sequence of its core calls.
use universal_multi_segmente.Prelude.{
  ℕ, ◌*◌, ◌%◌, ◌^◌, ◌<◌, refl, inl, inr, Bool, List, [], ◌∷◌, arith, ◌==◌, Bool-cases, All,
}
use universal_multi_segmente.Capsule.{Memory}
use universal_multi_segmente.BiBuffer
use universal_multi_segmente.BiBuffer.{BiBuffer}
use universal_multi_segmente.Segments.{segment_ring_init}
use universal_multi_segmente.Segments.Arena.{arena_init}
use universal_multi_segmente.FeedbackStream.{feedback_clear}
use universal_multi_segmente.Gpu.{GpuDriver}
use universal_multi_segmente.BiBuffer.Invariant.{init-IsValid}
use universal_multi_segmente.Segments.Turns.{IsRing, segment_ring_init-IsRing}
use universal_multi_segmente.Segments.Arena.{IsArena}
use universal_multi_segmente.Control.Batching.{batch_init-IsBatch}
use universal_multi_segmente.Bus.{Bus, umsbb_init, umsbb_configure_gpu, umsbb_scale_segments}
use universal_multi_segmente.Bus.Submit.{umsbb_submit_to, umsbb_submit}
use universal_multi_segmente.Bus.Drain.{umsbb_drain_from}
use universal_multi_segmente.Bus.Lanes.{IsLane}
use universal_multi_segmente.Bus.Invariant.{IsBus, submit_to-IsBus}
use universal_multi_segmente.Segments.Turns.{init_buffers-All}
use universal_multi_segmente.Bus.DrainInvariant.{drain_from-IsBus}

init-IsLane : (cap : ℕ) → cap < 2 ^ 63 → IsLane (BiBuffer.init cap)
unfolding BiBuffer.init
init-IsLane cap h = record {
  valid = unfold BiBuffer.init in init-IsValid cap h;
  write_aligned = refl;
  read_aligned = refl;
  stored = λ o a lt. absurd (omega arith);
}

submit-IsBus :
    {bus : Bus} (d : GpuDriver) (m : Memory) (now msg size : ℕ)
    → IsBus bus
    → IsBus (umsbb_submit d m now bus msg size)
unfolding umsbb_submit
submit-IsBus {bus} d m now msg size v =
    let w = submit_to-IsBus d m now bus.ring.current_index msg size v in
    record {
      ring = record {
        counted = w.ring.counted;
        at_most = w.ring.at_most;
        turn = omega (arith, w.ring.turn);
        valid = w.ring.valid;
      };
      lanes = w.lanes;
      arena = w.arena;
      batch = w.batch;
      logged = w.logged;
    }

module _ (d : GpuDriver) (address cap : ℕ) (h : 4 * cap < 2 ^ 63) where
  segments-IsBus :
      (n : ℕ)
      → 0 < n
      → cap * n < 2 ^ 63
      → IsRing (segment_ring_init n cap)
        × All IsLane (segment_ring_init n cap).buffers
        × IsArena (arena_init address (cap * n % 2 ^ 64))
  unfolding segment_ring_init arena_init
  segments-IsBus n p l = (
    unfold segment_ring_init in segment_ring_init-IsRing n cap p (omega arith),
    init_buffers-All IsLane _ cap (init-IsLane cap (omega arith)),
    record { small = omega arith; within = omega arith },
  )

  pub init-IsBus :
      (segment_count : ℕ)
      → cap * segment_count < 2 ^ 63
      → IsBus (umsbb_init d address cap segment_count)
  unfolding umsbb_init feedback_clear
  init-IsBus segment_count l = elim (Bool-cases (segment_count == 0)) [
    | inl e ↦ rw e (
        let s = segments-IsBus 4 (omega arith) (omega (arith, h)) in
        record {
          ring = s.0;
          lanes = s.1;
          arena = s.2;
          batch = batch_init-IsBatch 1 8 1 (omega arith) (omega arith) (omega arith);
          logged = omega arith;
        })
    | inr e ↦ rw e (
        let s = segments-IsBus segment_count (ground arith) (omega (arith, l)) in
        record {
          ring = s.0;
          lanes = s.1;
          arena = s.2;
          batch = batch_init-IsBatch 1 8 1 (omega arith) (omega arith) (omega arith);
          logged = omega arith;
        })
  ]

-- The calls that clients make on the core of a bus. Each brings the memory, the time and, for a
-- drain, the answer of `malloc` as they are when it is made.
pub data Call : Type 0 where
  submit_to : Memory → ℕ → ℕ → ℕ → ℕ → Call
  submit : Memory → ℕ → ℕ → ℕ → Call
  drain_from : Memory → Bool → ℕ → ℕ → Call
  configure_gpu : Bool → Call
  scale_segments : ℕ → Call

pub step : GpuDriver → Bus → Call → Bus
step d bus (submit_to m now lane msg size) = (umsbb_submit_to d m now bus lane msg size).1
step d bus (submit m now msg size) = umsbb_submit d m now bus msg size
step d bus (drain_from m allocated now lane) = (umsbb_drain_from d m allocated now bus lane).2
step d bus (configure_gpu enable) = (umsbb_configure_gpu d bus enable).1
step d bus (scale_segments n) = (umsbb_scale_segments bus n).1

pub run : GpuDriver → Bus → List Call → Bus
run d bus [] = bus
run d bus (c ∷ cs) = run d (step d bus c) cs

step-IsBus : (d : GpuDriver) {bus : Bus} (c : Call) → IsBus bus → IsBus (step d bus c)
unfolding step umsbb_configure_gpu umsbb_scale_segments
step-IsBus d (submit_to m now lane msg size) v = submit_to-IsBus d m now lane msg size v
step-IsBus d (submit m now msg size) v = submit-IsBus d m now msg size v
step-IsBus d (drain_from m allocated now lane) v = drain_from-IsBus d m allocated now lane v
step-IsBus d (configure_gpu enable) v = ground arith
step-IsBus d (scale_segments n) v = ground arith

run-IsBus : (d : GpuDriver) (bus : Bus) (cs : List Call) → IsBus bus → IsBus (run d bus cs)
unfolding run
run-IsBus d bus [] v = v
run-IsBus d bus (c ∷ cs) v = run-IsBus d (step d bus c) cs (step-IsBus d c v)

-- A new bus is well-formed if its capacities leave room in a `size_t`, and stays so through every
-- sequence of calls: its buffers keep their indices in order and within their regions, hold a
-- capsule wherever a drain may read, the arena hands out only what it has, the batch size keeps its
-- bounds, and the log its 128 entries.
pub run-init-IsBus :
    (d : GpuDriver) (address cap segment_count : ℕ) (cs : List Call)
    → 4 * cap < 2 ^ 63
    → cap * segment_count < 2 ^ 63
    → IsBus (run d (umsbb_init d address cap segment_count) cs)
run-init-IsBus d address cap segment_count cs h l =
    run-IsBus d (umsbb_init d address cap segment_count) cs
      (init-IsBus d address cap h segment_count l)

-- ===== src/Bus.antt =====
-- src/universal_multi_segmented_bi_buffer_bus.c, the core functions, and the core fields of the bus
-- in include/universal_multi_segmented_bi_buffer_bus.h. `time(NULL)` is read once for each call, as
-- the argument `now`; whether the `malloc` of a drain succeeds is an argument too.
pub mod Submit
pub mod Drain
pub mod Lanes
pub mod Outcomes
pub mod DrainOutcomes
pub mod Invariant
pub mod DrainInvariant
pub mod History
pub mod Delivery
pub mod Isolation
pub mod Verdict
use universal_multi_segmente.Prelude.{
  ℕ, ◌*◌, ◌/◌, ◌%◌, ◌^◌, String, Bool, true, false, ◌&&◌, ◌||◌, none, some, ltb, ◌==◌,
  if◌then◌else◌, update, add_size, set,
}
use universal_multi_segmente.Capsule.{MessageCapsule}
use universal_multi_segmente.BiBuffer
use universal_multi_segmente.BiBuffer.{BiBuffer}
use universal_multi_segmente.Segments.{SegmentRing, segment_ring_init}
use universal_multi_segmente.Segments.Arena.{ArenaAllocator, arena_init}
use universal_multi_segmente.Control.{
  AdaptiveBatch, batch_init, FlowControl, flow_control_init, EventScheduler, event_init,
}
use universal_multi_segmente.FeedbackStream.{
  FeedbackType, FeedbackStream, feedback_push, feedback_clear,
}
use universal_multi_segmente.Gpu.{GpuDriver, gpu_available, initialize_gpu}

-- The double `load_factor` as the fraction that it stands for.
pub record Ratio : Type 0 where
  pub num : ℕ
  pub den : ℕ

pub record Bus : Type 0 where
  pub ring : SegmentRing
  pub arena : ArenaAllocator
  pub feedback : FeedbackStream
  pub batch : AdaptiveBatch
  pub flow : FlowControl
  pub scheduler : EventScheduler
  pub sequence : ℕ
  pub segment_count : ℕ
  pub gpu_enabled : Bool
  pub load_factor : Ratio
  pub total_operations : ℕ

-- `gpu_available` has initialised the driver wherever `initialize_gpu` is called behind it.
-- The core part of `umsbb_init`, with the address of the arena's block. `bufCap * 0.8` in doubles,
-- cut to a `size_t`, is `4 * cap / 5` for capacities below 2 ^ 50.
unfoldable pub umsbb_init : GpuDriver → ℕ → ℕ → ℕ → Bus
umsbb_init d arena_address cap segment_count =
    let n = if segment_count == 0 then 4 else segment_count in
    record {
      ring = segment_ring_init n cap;
      arena = arena_init arena_address (cap * n % 2 ^ 64);
      feedback = feedback_clear (record { entries = λ _. none; count = 0 });
      batch = batch_init 1 8 1;
      flow = flow_control_init (4 * cap / 5);
      scheduler = event_init;
      sequence = 0;
      segment_count = n;
      gpu_enabled = if gpu_available d then initialize_gpu d true else false;
      load_factor = record { num = 0; den = 1 };
      total_operations = 0;
    }

-- A `FeedbackEntry` is filled in and pushed.
unfoldable pub log : Bus → ℕ → FeedbackType → String → ℕ → Bus
log bus sequence type note now = record bus {
  feedback =
      feedback_push bus.feedback
        (record { sequence = sequence; type = type; note = note; timestamp = now % 2 ^ 64 });
}

unfoldable pub put_buffer : Bus → ℕ → BiBuffer → Bus
put_buffer bus lane b = record bus {
  ring = record bus.ring { buffers = set bus.ring.buffers lane b };
}

unfoldable pub count_operation : Bus → Bus
count_operation bus = record bus { total_operations = add_size bus.total_operations 1 }

-- `memcpy` of a capsule to an offset of region A.
unfoldable pub copy_capsule : BiBuffer → ℕ → MessageCapsule → BiBuffer
copy_capsule b offset c = record b { region_a = update b.region_a offset (some c) }

unfoldable pub umsbb_configure_gpu : GpuDriver → Bus → Bool → Bool × Bus
umsbb_configure_gpu d bus enable =
    if enable && gpu_available d
    then (initialize_gpu d true, record bus { gpu_enabled = initialize_gpu d true })
    else (true, record bus { gpu_enabled = false })

-- The load is above 0.8, or below 0.3.
unfoldable pub umsbb_get_optimal_segments : Bus → ℕ
umsbb_get_optimal_segments bus =
    if ltb (8 * bus.load_factor.den) (10 * bus.load_factor.num)
    then bus.segment_count * 2 % 2 ^ 32
    else if ltb (10 * bus.load_factor.num) (3 * bus.load_factor.den) && ltb 2 bus.segment_count
    then bus.segment_count / 2
    else bus.segment_count

unfoldable pub umsbb_scale_segments : Bus → ℕ → Bool × Bus
umsbb_scale_segments bus new_count =
    if new_count == 0 || new_count == bus.segment_count
    then (false, bus)
    else (true, record bus { segment_count = new_count })
